-- ===== src/Utils/Buffer/Tests.antt =====
-- A buffer of four bytes.
use oos.Prelude.{◌+◌, ◌≡◌, ◌⊎◌, ◌<◌, refl, [], ◌∷◌, ◌++◌, none, some, arith}
use oos.Prelude.Bytes.{codes}
use oos.Utils.Buffer.{Buffer, capacity, append}
use oos.Utils.Buffer.Append.{IsBuffer, contents, append_lem}

abbrev begun : Buffer
begun = record { cells = 97 ∷ 0 ∷ 0 ∷ 0 ∷ []; filled = 1 }

full : append begun (codes "bcde") ≡ none
unfolding append
full = refl

append_lem_example :
    ((capacity begun < begun.filled + 3) × (append begun (codes "bcd") ≡ none))
    ⊎ ((later : Buffer) × (append begun (codes "bcd") ≡ some later)
        × IsBuffer later
        × (capacity later ≡ capacity begun)
        × (contents later ≡ contents begun ++ codes "bcd"))
unfolding capacity
append_lem_example = append_lem begun (codes "bcd") (omega arith)

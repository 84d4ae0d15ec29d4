-- ===== src/Utils/Strings/Tests.antt =====
-- Texts, split at commas.
use oos.Prelude.{◌≡◌, refl, [], ◌∷◌, arith}
use oos.Prelude.Bytes.{codes}
use oos.Utils.Strings.{split}
use oos.Utils.Strings.Split.{join, split-join}

-- An empty item at the end is lost.
trailing : split b',' (codes "a,,b,") ≡ codes "a" ∷ [] ∷ codes "b" ∷ []
unfolding split
trailing = refl

split-join_example :
    split b',' (join b',' (codes "a") ([] ∷ codes "b" ∷ [])) ≡ codes "a" ∷ [] ∷ codes "b" ∷ []
split-join_example =
    split-join b',' (codes "a") ([] ∷ codes "b" ∷ [])
      (((λ e. omega (arith, e)), tt), (tt, (((λ e. omega (arith, e)), tt), λ e. cc)))

-- ===== src/Utils/Sequencer/Tests.antt =====
-- A sequencer that is updated and asked.
use oos.Prelude.{◌-◌, ◌^◌, ◌<◌, ◌≡◌, refl, [], ◌∷◌, arith}
use oos.Utils.Sequencer.{DefaultSequencer, next, update_all}
use oos.Utils.Sequencer.Fresh.{AllBelow, next-update_all}

abbrev zero_sequencer : DefaultSequencer
zero_sequencer = record { number = 0 }

next_number : (next (update_all (7 ∷ 3 ∷ []) zero_sequencer)).1 ≡ 8
unfolding next update_all
next_number = refl

-- The number behind the last one is 0.
next_wraps : (next (record { number = 2 ^ 64 - 1 })).1 ≡ 0
unfolding next
next_wraps = refl

next-update_all_example :
    (0 < (next (update_all (7 ∷ 3 ∷ []) zero_sequencer)).1)
    × AllBelow (next (update_all (7 ∷ 3 ∷ []) zero_sequencer)).1 (7 ∷ 3 ∷ [])
    × ((next (update_all (7 ∷ 3 ∷ []) zero_sequencer)).1 < 2 ^ 64)
next-update_all_example = next-update_all (7 ∷ 3 ∷ []) zero_sequencer (omega arith) (omega arith)

-- ===== src/Utils/Sequencer/Fresh.antt =====
-- The numbers that a sequencer gives out.
use oos.Prelude.{ℕ, ◌+◌, ◌-◌, ◌^◌, ◌<◌, ◌≤◌, ◌≡◌, List, [], ◌∷◌, arith}
use oos.Utils.Sequencer.{DefaultSequencer, next, update, update_all}

abbrev pub AllBelow : ℕ → List ℕ → Type 0
AllBelow n [] = Unit
AllBelow n (id ∷ ids) = (id < n) × AllBelow n ids

AllBelow-weaken : (m n : ℕ) (ids : List ℕ) → AllBelow m ids → m ≤ n → AllBelow n ids
AllBelow-weaken m n [] h le = tt
AllBelow-weaken m n (id ∷ ids) (h, hs) le = (omega (arith, h, le), AllBelow-weaken m n ids hs le)

update_all-le : (ids : List ℕ) (s : DefaultSequencer) → s.number ≤ (update_all ids s).number
unfolding update_all
update_all-le [] s = omega arith
update_all-le (id ∷ ids) s = ground (arith, update_all-le ids (update id s).0)

update_all-AllBelow :
    (ids : List ℕ) (s : DefaultSequencer) → AllBelow ((update_all ids s).number + 1) ids
unfolding update_all
update_all-AllBelow [] s = tt
update_all-AllBelow (id ∷ ids) s =
    (ground (arith, update_all-le ids (update id s).0), update_all-AllBelow ids (update id s).0)

update_all-bound :
    (n : ℕ) (ids : List ℕ) (s : DefaultSequencer)
    → AllBelow n ids
    → s.number < n
    → (update_all ids s).number < n
unfolding update_all
update_all-bound n [] s h g = g
update_all-bound n (id ∷ ids) s (h, hs) g =
    update_all-bound n ids (update id s).0 hs (ground (arith, h, g))

-- Behind the update by any ids, the next number is one of 64 bits that is greater than the number before
-- and than each of the ids, where none of these is the last number of 64 bits
-- or greater.
pub next-update_all :
    (ids : List ℕ) (s : DefaultSequencer)
    → AllBelow (2 ^ 64 - 1) ids
    → s.number < 2 ^ 64 - 1
    → (s.number < (next (update_all ids s)).1)
      × AllBelow (next (update_all ids s)).1 ids
      × ((next (update_all ids s)).1 < 2 ^ 64)
unfolding next
next-update_all ids s h g =
    let bound : (update_all ids s).number < 2 ^ 64 - 1 = update_all-bound (2 ^ 64 - 1) ids s h g in
    let fits : (next (update_all ids s)).1 ≡ (update_all ids s).number + 1 = omega (arith, bound) in
    rw fits (omega (arith, update_all-le ids s), update_all-AllBelow ids s, omega (arith, bound))

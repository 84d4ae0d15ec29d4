-- ===== src/Utils/Stream/Numbers.antt =====
-- The sources: containers, ranges and counters.
use native.Mathlib.Nat.{mod-eq_of_lt, mod-lt, div-add-mod}
use oos.Prelude.{
  ℕ, zero, suc, ◌+◌, ◌-◌, ◌*◌, ◌/◌, ◌%◌, ◌^◌, ◌≤◌, ◌<◌, ◌≡◌, refl, ap, inl, inr, true, false, List,
  [], ◌∷◌, arith, ltb, leb, if◌then◌else◌, ltb→lt, lt→ltb, le→leb, Bool-cases, length,
}
use oos.Utils.Stream.Processor.{Lists, Starts}
use oos.Utils.Stream.Sources.{
  make_from, container_process, make_range, range_process, make_counter, counter_process,
}

rest-Lists {ℓ} :
    {A : Type ℓ} (x : A) (xs : List A)
    → Lists container_process (record { first = false; rest = x ∷ xs }) xs
unfolding container_process
rest-Lists x [] = (record { first = false; rest = [] }, refl)
rest-Lists x (y ∷ xs) = (record { first = false; rest = y ∷ xs }, refl, rest-Lists y xs)

pub Lists-container {ℓ} : {A : Type ℓ} (xs : List A) → Lists container_process (make_from xs) xs
unfolding container_process
Lists-container [] = (record { first = false; rest = [] }, refl)
Lists-container (x ∷ xs) = (record { first = false; rest = x ∷ xs }, refl, rest-Lists x xs)

-- `n` numbers from `a` on, with the difference `d`.
abbrev pub progression : ℕ → ℕ → ℕ → List ℕ
progression a d zero = []
progression a d (suc n) = a ∷ progression (a + d) d n

module _ (w incr to : ℕ) where
  -- The numbers behind `current`, of which there are `n`.
  range-Lists :
      (n c : ℕ)
      → to + incr < 2 ^ w
      → c + n * incr ≤ to
      → to < c + n * incr + incr
      → Lists
          (range_process w incr)
          (record { first = false; to = to; current = c })
          (progression (c + incr) incr n)
  unfolding range_process
  range-Lists zero c h g l =
      let m : (c + incr) % 2 ^ w ≡ c + incr = mod-eq_of_lt (omega arith) in
      let d : leb (c + incr) to ≡ false = ground (arith, l) in
      (record { first = false; to = to; current = c + incr }, rw (m, d) refl)
  range-Lists (suc n) c h g l =
      let s : suc n * incr ≡ incr + n * incr = omega arith in
      let m : (c + incr) % 2 ^ w ≡ c + incr = mod-eq_of_lt (omega (arith, s)) in
      let d : leb (c + incr) to ≡ true = le→leb (c + incr) to (omega (arith, s)) in
      (
        record { first = false; to = to; current = c + incr },
        rw (m, d) refl,
        range-Lists n (c + incr) h (omega (arith, s)) (omega (arith, s)),
      )

  -- At the largest number of the width the test `current_ <= to_` never fails.
  range-Starts :
      (n c : ℕ)
      → suc to ≡ 2 ^ w
      → (xs : List ℕ) × (length xs ≡ n)
        × Starts (range_process w incr) (record { first = false; to = to; current = c }) xs
  unfolding range_process
  range-Starts zero c h = ([], refl, tt)
  range-Starts (suc n) c h =
      let b : (c + incr) % 2 ^ w < 2 ^ w = mod-lt (c + incr) (omega arith) in
      let d : leb ((c + incr) % 2 ^ w) to ≡ true = le→leb ((c + incr) % 2 ^ w) to (omega arith) in
      let (xs, k, l) = range-Starts n ((c + incr) % 2 ^ w) h in
      (
        ((c + incr) % 2 ^ w) ∷ xs,
        ap suc k,
        (record { first = false; to = to; current = (c + incr) % 2 ^ w }, rw d refl, l),
      )

counter-Starts :
    (w incr n c : ℕ)
    → c + n * incr < 2 ^ w
    → Starts
        (counter_process w incr)
        (record { first = false; current = c })
        (progression (c + incr) incr n)
unfolding counter_process
counter-Starts w incr zero c h = tt
counter-Starts w incr (suc n) c h =
    let s : suc n * incr ≡ incr + n * incr = omega arith in
    let m : (c + incr) % 2 ^ w ≡ c + incr = mod-eq_of_lt (omega (arith, s)) in
    (
      record { first = false; current = c + incr },
      rw m refl,
      counter-Starts w incr n (c + incr) (omega (arith, s)),
    )

-- For an unsigned type of width `w`: if the increment is not 0 and `to` and the increment do not pass the
-- width together, the stream of a
-- range lists the numbers `from`, `from + incr` and so on, `(to - from) / incr` of them behind the
-- first, and nothing if `from` is not below `to`.
pub range-progression :
    (w from to incr : ℕ)
    → 0 < incr
    → to + incr < 2 ^ w
    → Lists
        (range_process w incr)
        (make_range from to)
        (if ltb from to then progression from incr (suc ((to - from) / incr)) else [])
unfolding range_process
range-progression w from to incr h g = elim (Bool-cases (ltb from to)) [
  | inl b ↦
      let l : from < to = ltb→lt from to b in
      let q = (to - from) / incr in
      let c : q * incr ≡ incr * q = omega arith in
      let e : incr * q + (to - from) % incr ≡ to - from = div-add-mod (to - from) incr in
      let m : (to - from) % incr < incr = mod-lt (to - from) h in
      rw b (
        record { first = false; to = to; current = from },
        rw b refl,
        range-Lists w incr to q from g (omega (arith, c, e, m, l)) (omega (arith, c, e, m, l)),
      )
  | inr b ↦ rw b (record { first = true; to = to; current = from }, rw b refl)
]

-- The stream of a range whose upper end is the largest number of its width, and whose lower end is
-- below, does not end: it starts with lists of any length.
pub range-endless :
    (w from incr n : ℕ)
    → suc from < 2 ^ w
    → (xs : List ℕ) × (length xs ≡ suc n)
      × Starts (range_process w incr) (make_range from (2 ^ w - 1)) xs
unfolding range_process
range-endless w from incr n h =
    let b : ltb from (2 ^ w - 1) ≡ true = lt→ltb from (2 ^ w - 1) (omega arith) in
    let (xs, k, l) = range-Starts w incr (2 ^ w - 1) n from (omega arith) in
    (from ∷ xs, ap suc k, (record { first = false; to = 2 ^ w - 1; current = from }, rw b refl, l))

-- A counter starts with as many numbers as its width allows.
pub counter-progression :
    (w from incr n : ℕ)
    → from + n * incr < 2 ^ w
    → Starts (counter_process w incr) (make_counter from) (progression from incr (suc n))
unfolding counter_process
counter-progression w from incr n h =
    (record { first = false; current = from }, refl, counter-Starts w incr n from h)

pub length-progression : (a d n : ℕ) → length (progression a d n) ≡ n
length-progression a d zero = refl
length-progression a d (suc n) = ap suc (length-progression (a + d) d n)

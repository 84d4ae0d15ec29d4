-- ===== src/Utils/Stream/Packs.antt =====
-- What `pack_every` and `every` give, said by positions and lengths.
use oos.Prelude.{
  AllOf, ℕ, zero, suc, ◌+◌, ◌-◌, ◌*◌, ◌^◌, ◌<◌, ◌≡◌, refl, sym, ap, ◌∙◌, List, [], ◌∷◌, ◌++◌,
  append-nil, append_assoc, arith, length, get_elem?, length-append,
}
use oos.Prelude.Outcome.{Outcome}
use oos.Utils.Stream.Processor.{Pull, Lists}
use oos.Utils.Stream.Stages.{counted, every_process, make_pack_every, pack_every_process}
use oos.Utils.Stream.Spec.{packs, flat_map, every_nth}
use oos.Utils.Stream.Join.{Lists-pack_every}
use oos.Utils.Stream.Count.{Lists-every}

module _ {ℓ} {A : Type ℓ} where
  -- The packs, one behind the other, and the elements that are left.
  packs-parts :
      (n k : ℕ) (acc xs : List A)
      → length acc + suc k ≡ n
      → (rest : List A) × (flat_map (λ p. p) (packs n k acc xs) ++ rest ≡ acc ++ xs)
        × AllOf (λ p. length p ≡ n) (packs n k acc xs)
        × (length rest < n)
  packs-parts n k acc [] h = (acc, sym (append-nil acc), tt, omega arith)
  packs-parts n zero acc (x ∷ xs) h =
      let (rest, e, a, l) = packs-parts n (n - 1) [] xs (omega arith) in
      (
        rest,
        append_assoc (acc ++ (x ∷ [])) (flat_map (λ p. p) (packs n (n - 1) [] xs)) rest
            ∙ ap (◌++◌ (acc ++ (x ∷ []))) e
            ∙ append_assoc acc (x ∷ []) xs,
        ((length-append acc (x ∷ []) ∙ omega (arith, h)), a),
        l,
      )
  packs-parts n (suc k) acc (x ∷ xs) h =
      let (rest, e, a, l) =
        packs-parts n k (acc ++ (x ∷ [])) xs (omega (arith, length-append acc (x ∷ []))) in
      (rest, e ∙ append_assoc acc (x ∷ []) xs, a, l)

  get-every_nth :
      (n k i : ℕ) (xs : List A) → 0 < n → get_elem? (every_nth n k xs) i ≡ get_elem? xs (k + i * n)
  get-every_nth n k i [] h = refl
  get-every_nth n zero zero (x ∷ xs) h = let e : 0 ≡ 0 + 0 * n = omega arith in rw (← e) refl
  get-every_nth n zero (suc i) (x ∷ xs) h =
      let e : suc (n - 1 + i * n) ≡ 0 + suc i * n = omega arith in
      rw (← e) (get-every_nth n (n - 1) i xs h)
  get-every_nth n (suc k) i (x ∷ xs) h =
      let e : suc (k + i * n) ≡ suc k + i * n = omega arith in rw (← e) (get-every_nth n k i xs h)

-- For a stream that lists `xs`, of fewer than `2 ^ 64` elements, and `0 < n < 2 ^ 64 - 1`:
-- `pack_every n` lists packs of `n` elements each, which one behind the other and with fewer than `n`
-- further elements, which no pack gets, are `xs`; `every n` lists the elements number `n`, `2 n` and
-- so on.
pub pack_every-parts {ℓ κ} :
    {S : Type ℓ} {A : Type κ} (process : S → Outcome (Pull S A)) (n : ℕ) (s : S) (xs : List A)
    → 0 < n
    → n < 2 ^ 64 - 1
    → length xs < 2 ^ 64
    → Lists process s xs
    → ((ps : List (List A)) × (rest : List A) × Lists
          (pack_every_process process n)
          (make_pack_every n s)
          ps
        × (flat_map (λ p. p) ps ++ rest ≡ xs)
        × AllOf (λ p. length p ≡ n) ps
        × (length rest < n))
      × ((ys : List A) × Lists (every_process process n) (counted s) ys
          × ((i : ℕ) → get_elem? ys i ≡ get_elem? xs (n - 1 + i * n)))
pack_every-parts process n s xs g w b l =
    let (rest, e, a, r) = packs-parts n (n - 1) [] xs (omega arith) in
    (
      (packs n (n - 1) [] xs, rest, Lists-pack_every process n w s xs g l, e, a, r),
      (
        every_nth n (n - 1) xs,
        Lists-every process n s xs g b l,
        (λ i. get-every_nth n (n - 1) i xs g),
      ),
    )

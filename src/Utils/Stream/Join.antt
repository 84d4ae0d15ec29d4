-- ===== src/Utils/Stream/Join.antt =====
-- The stages that group elements and put streams behind one another: `pack_every`, `flatmap` and
-- `concat`.
use oos.Prelude.{
  ℕ, zero, suc, ◌+◌, ◌-◌, ◌%◌, ◌^◌, ◌≤◌, ◌<◌, ◌≡◌, refl, inl, inr, true, false, Option, none, some,
  List, [], ◌∷◌, ◌++◌, arith, ltb, leb, lt→ltb, List-cases, length,
}
use oos.Prelude.Outcome.{Outcome, ok}
use oos.Utils.Stream.Processor.{Pull, yields, ends, Lists, Lists-Remaining, Remaining}
use oos.Utils.Stream.Sources.{ContainerState, container_process}
use oos.Utils.Stream.Stages.{
  Packing, make_pack_every, pack_loop, pack_every_process, make_flatmap, flatmap_loop,
  flatmap_process, both, second, empty, second_process, concat_process,
}
use oos.Utils.Stream.Spec.{flat_map, packs}

module _ {ℓ ℓ' κ} {S : Type ℓ} {T : Type ℓ'} {A : Type κ} (process : S → Outcome (Pull S A))
    (process_next : T → Outcome (Pull T A)) where
  second-Lists :
      (t : T) (ys : List A)
      → Lists process_next t ys
      → Remaining (concat_process process process_next) (second_process process process_next t) ys
  unfolding concat_process second_process
  second-Lists t [] (u, e) = (empty, rw e refl)
  second-Lists t (y ∷ ys) (u, e, l) = (
    second u,
    rw e refl,
    Lists-Remaining (concat_process process process_next) (second u) ys (second-Lists u ys l),
  )

  pub Lists-concat :
      (s : S) (t : T) (xs ys : List A)
      → Lists process s xs
      → Lists process_next t ys
      → Lists (concat_process process process_next) (both s t) (xs ++ ys)
  unfolding concat_process
  Lists-concat s t [] ys (u, e) k =
      Lists-Remaining (concat_process process process_next) (both s t) ys
        (rw e (second-Lists t ys k))
  Lists-concat s t (x ∷ xs) ys (u, e, l) k = (both u t, rw e refl, Lists-concat u t xs ys l k)

module _ {ℓ κ κ'} {S : Type ℓ} {A : Type κ} {B : Type κ'} (process : S → Outcome (Pull S A))
    (pred : A → List B) (fuel : ℕ) where
  -- The rest of the inner stream, and then the elements of the others.
  inner-Lists :
      (s : S) (b : B) (bs ys : List B)
      → ((i : Option (ContainerState B))
          → Remaining (flatmap_process process pred fuel) (flatmap_loop process pred fuel s i) ys)
      → Lists
          (flatmap_process process pred fuel)
          (record {
            successor = s;
            first = false;
            inner = some (record { first = false; rest = b ∷ bs });
          })
          (bs ++ ys)
  unfolding flatmap_process container_process
  inner-Lists s b [] ys k =
      Lists-Remaining (flatmap_process process pred fuel)
        (record {
          successor = s;
          first = false;
          inner = some (record { first = false; rest = b ∷ [] });
        })
        ys (k _)
  inner-Lists s b (c ∷ bs) ys k = (_, refl, inner-Lists s c bs ys k)

  flatmap-Remaining :
      (n : ℕ) (s : S) (xs : List A) (i : Option (ContainerState B))
      → length xs < n
      → n ≤ fuel
      → Lists process s xs
      → Remaining
          (flatmap_process process pred fuel)
          (flatmap_loop process pred n s i)
          (flat_map pred xs)
  unfolding flatmap_process flatmap_loop container_process
  flatmap-Remaining zero s xs i h g l = absurd (omega arith)
  flatmap-Remaining (suc n) s [] i h g (t, e) =
      (record { successor = t; first = false; inner = i }, rw e refl)
  flatmap-Remaining (suc n) s (x ∷ xs) i h g (t, e, l) =
      let more : (j : Option (ContainerState B))
          → Remaining (flatmap_process process pred fuel) (flatmap_loop process pred fuel t j)
              (flat_map pred xs) =
        λ j. flatmap-Remaining fuel t xs j (omega arith) (omega arith) l in
      elim (List-cases (pred x)) [
        | inl p ↦ rw (e, p) (flatmap-Remaining n t xs _ (omega arith) (omega arith) l)
        | inr (b, bs, p) ↦ rw (e, p) (_, refl, inner-Lists t b bs (flat_map pred xs) more)
      ]

  pub Lists-flatmap :
      (s : S) (xs : List A)
      → length xs < fuel
      → Lists process s xs
      → Lists (flatmap_process process pred fuel) (make_flatmap s) (flat_map pred xs)
  unfolding flatmap_process
  Lists-flatmap s xs h l =
      Lists-Remaining (flatmap_process process pred fuel) (make_flatmap s) (flat_map pred xs)
        (flatmap-Remaining fuel s xs none h (omega arith) l)

module _ {ℓ κ} {S : Type ℓ} {A : Type κ} (process : S → Outcome (Pull S A)) (n : ℕ)
    (h64 : n < 2 ^ 64 - 1) where
  -- Once a pack is full, the next call starts the next one.
  pack_every_restarts :
      (c : ℕ) (acc : List A) (s : S)
      → leb n c ≡ true
      → pack_every_process process n (record { successor = s; current_packsize = c; value = acc })
        ≡ pack_loop process n (suc n) (record { successor = s; current_packsize = 0; value = [] })
  unfolding pack_every_process
  pack_every_restarts c acc s h = rw h refl

  -- One turn of the loop, with an element or at the end, and the test that leaves it.
  pack_loop_takes :
      (m c : ℕ) (acc : List A) (s t : S) (a : A)
      → c < n
      → process s ≡ ok (yields a t)
      → pack_loop process n (suc m) (record { successor = s; current_packsize = c; value = acc })
        ≡ pack_loop process n m
            (record { successor = t; current_packsize = suc c; value = acc ++ (a ∷ []) })
  unfolding pack_loop
  pack_loop_takes m c acc s t a h e =
      let w : suc c % 2 ^ 64 ≡ suc c = omega arith in rw (lt→ltb c n h, e, w) refl

  pack_loop_ends :
      (m c : ℕ) (acc : List A) (s t : S)
      → c < n
      → process s ≡ ok (ends t)
      → pack_loop process n (suc m) (record { successor = s; current_packsize = c; value = acc })
        ≡ ok (ends (record { successor = t; current_packsize = suc c; value = acc }))
  unfolding pack_loop
  pack_loop_ends m c acc s t h e =
      let w : suc c % 2 ^ 64 ≡ suc c = omega arith in rw (lt→ltb c n h, e, w) refl

  pack_loop_leaves :
      (m : ℕ) (acc : List A) (s : S)
      → pack_loop process n (suc m) (record { successor = s; current_packsize = n; value = acc })
        ≡ ok (yields acc (record { successor = s; current_packsize = suc n; value = acc }))
  unfolding pack_loop
  pack_loop_leaves m acc s =
      let d : ltb n n ≡ false = ground arith in
      let w : suc n % 2 ^ 64 ≡ suc n = omega arith in rw (d, w) refl

  -- `acc` has been put into the pack, and `k` elements beside the next one are missing.
  pack-Remaining :
      (m k c : ℕ) (acc : List A) (s : S) (xs : List A)
      → suc k < m
      → c + suc k ≡ n
      → Lists process s xs
      → Remaining
          (pack_every_process process n)
          (pack_loop process n m (record { successor = s; current_packsize = c; value = acc }))
          (packs n k acc xs)
  pack-Remaining zero k c acc s xs g h l = absurd (omega arith)
  pack-Remaining (suc zero) k c acc s xs g h l = absurd (omega arith)
  pack-Remaining (suc (suc m)) k c acc s [] g h (t, e) = (
    record { successor = t; current_packsize = suc c; value = acc },
    pack_loop_ends (suc m) c acc s t (omega arith) e,
  )
  pack-Remaining (suc (suc m)) zero c acc s (x ∷ xs) g h (t, e, l) =
      let full : Packing S A = record {
        successor = t;
        current_packsize = suc n;
        value = acc ++ (x ∷ []);
      } in
      let more = pack-Remaining (suc n) (n - 1) 0 [] t xs (omega arith) (omega arith) l in
      let d : suc c ≡ n = omega arith in
      let le : leb n (suc n) ≡ true = ground arith in
      rw
        (
          pack_loop_takes (suc m) c acc s t x (omega arith) e,
          d,
          pack_loop_leaves m (acc ++ (x ∷ [])) t,
        )
        (
          full,
          refl,
          Lists-Remaining (pack_every_process process n) full (packs n (n - 1) [] xs)
              (rw (pack_every_restarts (suc n) (acc ++ (x ∷ [])) t le) more),
        )
  pack-Remaining (suc (suc m)) (suc k) c acc s (x ∷ xs) g h (t, e, l) =
      rw (pack_loop_takes (suc m) c acc s t x (omega arith) e)
        (pack-Remaining (suc m) k (suc c) (acc ++ (x ∷ [])) t xs (omega arith) (omega arith) l)

  pub Lists-pack_every :
      (s : S) (xs : List A)
      → 0 < n
      → Lists process s xs
      → Lists (pack_every_process process n) (make_pack_every n s) (packs n (n - 1) [] xs)
  Lists-pack_every s xs g l =
      let le : leb n n ≡ true = ground arith in
      Lists-Remaining (pack_every_process process n) (make_pack_every n s) (packs n (n - 1) [] xs) (
        rw (pack_every_restarts n [] s le)
          (pack-Remaining (suc n) (n - 1) 0 [] s xs (omega arith) (omega arith) l))

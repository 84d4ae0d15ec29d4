-- ===== src/Object/Prototype/Child.antt =====
-- `is_child_of` by the depths of the nodes.
use oos.Prelude.{
  ℕ, zero, suc, ◌+◌, ◌≤◌, ◌<◌, ◌≡◌, refl, sym, ap, ◌∙◌, true, false, Option, none, some, ◌∷◌, arith,
  ltb, ◌==◌, lt→ltb, AllOf, AllOf-append, AllOf-weaken,
}
use oos.Prelude.Outcome.{ok}
use oos.Object.Prototype.{Nodes, ancestor, is_child_of}
use oos.Object.Prototype.Forest.{Forest, nil, tree, preorder, size, Chain}

module _ (h : Nodes) (prnt : ℕ) where
  -- With more than `k` units of fuel, the way up from `x` to the depth of `prnt` ends at `r`.
  Reaches : ℕ → ℕ → ℕ → Type 0
  Reaches k r x = (m : ℕ) → k < m → ancestor m h prnt x ≡ ok r

  Reaches-self : (x : ℕ) → (h x).depth ≡ (h prnt).depth → Reaches 0 x x
  unfolding Reaches ancestor
  Reaches-self x e m s = start m s (h x).parent refl
    where
      lowest : ltb (h prnt).depth (h x).depth ≡ false
      lowest = rw e (ground arith)

      start : (m : ℕ) → 0 < m → (p : Option ℕ) → (h x).parent ≡ p → ancestor m h prnt x ≡ ok x
      start zero s p q = absurd (omega arith)
      start (suc m) s none q = rw (ancestor, q, lowest) refl
      start (suc m) s (some p) q = rw (ancestor, q, lowest) refl

  Reaches-up :
      (x a k r : ℕ)
      → (h x).parent ≡ some a
      → (h prnt).depth < (h x).depth
      → Reaches k r a
      → Reaches (suc k) r x
  unfolding Reaches ancestor
  Reaches-up x a k r q d u zero s = absurd (omega arith)
  Reaches-up x a k r q d u (suc m) s =
      rw (ancestor, q, lt→ltb (h prnt).depth (h x).depth d) (u m (omega arith))

  weaken : (k j r x : ℕ) → k ≤ j → Reaches k r x → Reaches j r x
  unfolding Reaches
  weaken k j r x s u m i = u m (omega (arith, i))

  -- All nodes below `a` reach what `a` reaches.
  Chain-Reaches :
      (ts : Forest) (a l d p k r : ℕ)
      → Chain h (some a) l d p ts
      → (h prnt).depth < d
      → Reaches k r a
      → AllOf (Reaches (k + size ts) r) (preorder ts)
  Chain-Reaches nil a l d p k r c s u = tt
  Chain-Reaches (tree x f j cs rest) a l d p k r (n, v, ne, q, dx, fx, lx, fp, fl, under, behind) s
        u =
      let here : Reaches (suc k) r x = Reaches-up x a k r q (rw dx s) u in
      let total = k + suc (size cs + size rest) in
      let inner = Chain-Reaches cs x j (suc d) f (suc k) r under (omega arith) here in
      let others = Chain-Reaches rest a l d x k r behind s u in
      (
        weaken (suc k) total r x (omega arith) here,
        AllOf-append (Reaches total r) (preorder cs) (preorder rest)
            (AllOf-weaken (Reaches (suc k + size cs) r) (Reaches total r) (preorder cs)
              (λ y. weaken (suc k + size cs) total r y (omega arith)) inner)
            (AllOf-weaken (Reaches (k + size rest) r) (Reaches total r) (preorder rest)
              (λ y. weaken (k + size rest) total r y (omega arith)) others),
      )

  Reaches-is_child_of :
      (k r x m : ℕ) → k < m → Reaches k r x → is_child_of m h x prnt ≡ ok (r == prnt)
  unfolding Reaches is_child_of
  Reaches-is_child_of k r x m s u = rw (u m s) refl

-- For a node with the children `cs`, and another node of the same depth with the children `bs`, with
-- more fuel than nodes: `is_child_of` the first is true of it and of every node below it, and false
-- of the second and of every node below that.
pub is_child_of-preorder :
    (h : Nodes) (a l f b k g d fuel : ℕ) (cs bs : Forest)
    → (h a).depth ≡ d
    → (h b).depth ≡ d
    → (b == a) ≡ false
    → Chain h (some a) l (suc d) f cs
    → Chain h (some b) k (suc d) g bs
    → size cs < fuel
    → size bs < fuel
    → AllOf (λ x. is_child_of fuel h x a ≡ ok true) (a ∷ preorder cs)
      × AllOf (λ x. is_child_of fuel h x a ≡ ok false) (b ∷ preorder bs)
is_child_of-preorder h a l f b k g d fuel cs bs da db ne under below s t = (
  (
    yes a 0 (omega arith) (Reaches-self h a a refl),
    AllOf-weaken (Reaches h a (0 + size cs) a) (λ x. is_child_of fuel h x a ≡ ok true) (preorder cs)
        (λ x. yes x (0 + size cs) (omega arith))
        (Chain-Reaches h a cs a l (suc d) f 0 a under (rw da (omega arith))
          (Reaches-self h a a refl)),
  ),
  (
    no b 0 (omega arith) other,
    AllOf-weaken (Reaches h a (0 + size bs) b) (λ x. is_child_of fuel h x a ≡ ok false)
        (preorder bs) (λ x. no x (0 + size bs) (omega arith))
        (Chain-Reaches h a bs b k (suc d) g 0 b below (rw da (omega arith)) other),
  ),
)
  where
    other : Reaches h a 0 b b
    other = Reaches-self h a b (db ∙ sym da)

    yes : (x k : ℕ) → k < fuel → Reaches h a k a x → is_child_of fuel h x a ≡ ok true
    yes x k i u =
        let e : (a == a) ≡ true = ground arith in Reaches-is_child_of h a k a x fuel i u ∙ ap ok e

    no : (x k : ℕ) → k < fuel → Reaches h a k b x → is_child_of fuel h x a ≡ ok false
    no x k i u = Reaches-is_child_of h a k b x fuel i u ∙ ap ok ne

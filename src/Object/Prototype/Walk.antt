-- ===== src/Object/Prototype/Walk.antt =====
-- The walk by `next_node()` visits the nodes of a tree in preorder.
use mathlib.Core.Option.{some-injective}
use oos.Prelude.{
  ℕ, zero, suc, ◌+◌, ◌≤◌, ◌<◌, ◌≡◌, refl, true, false, Option, none, some, List, [], ◌∷◌, ◌++◌,
  arith,
}
use oos.Prelude.Outcome.{ok}
use oos.Object.Prototype.{Nodes, same, climb, next_node}
use oos.Object.Prototype.Forest.{Forest, nil, tree, preorder, size, Chain}

pub same-some : (a : ℕ) → same (some a) (some a) ≡ true
same-some a = ground arith

module _ (fuel : ℕ) (h : Nodes) (root : Option ℕ) where
  -- From `a` on, the calls of `next_node()` visit `xs`, and then give `b`.
  abbrev pub Walk : Option ℕ → List ℕ → Option ℕ → Type 0
  Walk a [] b = a ≡ b
  Walk a (x ∷ xs) b =
      (a ≡ some x) × ((c : Option ℕ) × (next_node fuel h root x ≡ ok c) × Walk c xs b)

  Walk-append :
      (xs ys : List ℕ) (a c b : Option ℕ) → Walk a xs c → Walk c ys b → Walk a (xs ++ ys) b
  Walk-append [] ys a c b e w = rw e w
  Walk-append (x ∷ xs) ys a c b (e, (m, f, v)) w = (e, (m, f, Walk-append xs ys m c b v w))

  -- The way up from `a` ends at `b`, with more than `k` units of fuel.
  Climbs : ℕ → ℕ → Option ℕ → Type 0
  Climbs k a b = (n : ℕ) → k < n → climb n h root a ≡ ok b

  -- A sibling that is not the last one is where the way up ends; behind the last one it goes on
  -- from the parent.
  Climbs-next :
      (x y l d p : ℕ) (parent : Option ℕ)
      → (h x).next ≡ some y
      → same (some y) (some l) ≡ false
      → (h x).parent ≡ parent
      → ((a : ℕ) → parent ≡ some a → (h a).last ≡ some l)
      → Climbs 0 x (some y)
  unfolding Climbs climb
  Climbs-next x y l d p none e s q g zero k = absurd (omega arith)
  Climbs-next x y l d p none e s q g (suc n) k = rw (climb, q, e) refl
  Climbs-next x y l d p (some a) e s q g zero k = absurd (omega arith)
  Climbs-next x y l d p (some a) e s q g (suc n) k = rw (climb, q, e, g a refl, s) refl

  Climbs-last :
      (x l a k : ℕ) (b : Option ℕ)
      → (h x).next ≡ some l
      → (h x).parent ≡ some a
      → (h a).last ≡ some l
      → same (some a) root ≡ false
      → Climbs k a b
      → Climbs (suc k) x b
  unfolding Climbs climb
  Climbs-last x l a k b e q g o c zero i = absurd (omega arith)
  Climbs-last x l a k b e q g o c (suc n) i =
      rw (climb, q, e, g, same-some l, o) (c n (omega arith))

  -- No node of `ts` is the root.
  abbrev pub Avoids : Forest → Type 0
  Avoids nil = Unit
  Avoids (tree x f k cs rest) = (same (some x) root ≡ false) × Avoids cs × Avoids rest

  -- The siblings `ts` are visited, up to `b`.
  abbrev Visits : Option ℕ → Forest → Type 0
  Visits b nil = Unit
  Visits b (tree x f k cs rest) = Walk (some x) (preorder (tree x f k cs rest)) b

  -- The way from a node with its children visited to its next siblings, or up.
  visit_rest :
      (rest : Forest) (parent : Option ℕ) (x l d k : ℕ) (b : Option ℕ)
      → Chain h parent l d x rest
      → ((a : ℕ) → parent ≡ some a → (h a).last ≡ some l)
      → (h x).parent ≡ parent
      → ((y : ℕ) → (h y).next ≡ some l → (h y).parent ≡ parent → Climbs k y b)
      → Visits b rest
      → (c : Option ℕ) × Climbs k x c × Walk c (preorder rest) b
  unfolding Climbs
  visit_rest nil parent x l d k b c g q e v = (b, e x c.0 q, refl)
  visit_rest (tree y f j cs rest) parent x l d k b c g q e v =
      (some y, (λ m i. Climbs-next x y l d x parent c.0 c.2 q g m (omega (arith, i))), v)

  -- The way from a node to its first child, or, if it has none, to what is behind it.
  visit_children :
      (cs : Forest) (x f j d k : ℕ) (c : Option ℕ)
      → Chain h (some x) j d f cs
      → (h x).first ≡ some f
      → (h x).last ≡ some j
      → k < fuel
      → Climbs k x c
      → Visits c cs
      → (m : Option ℕ) × (next_node fuel h root x ≡ ok m) × Walk m (preorder cs) c
  unfolding Climbs next_node
  visit_children nil x f j d k c ch e g i u v =
      (c, rw (next_node, e, g, ch.0, same-some j) (u fuel i), refl)
  visit_children (tree y f' j' cs rest) x f j d k c ch e g i u v =
      (some y, rw (next_node, e, g, ch.0, ch.2) refl, v)

  Chain-Visits :
      (ts : Forest) (parent : Option ℕ) (l d p k : ℕ) (b : Option ℕ)
      → Chain h parent l d p ts
      → ((a : ℕ) → parent ≡ some a → (h a).last ≡ some l)
      → ((x : ℕ) → (h x).next ≡ some l → (h x).parent ≡ parent → Climbs k x b)
      → size ts + k ≤ fuel
      → Avoids ts
      → Visits b ts
  Chain-Visits nil parent l d p k b c g e s o = tt
  Chain-Visits (tree x f j cs rest) parent l d p k b
        (n, v, ne, q, dx, fx, lx, fp, fl, under, behind) g e s (o, oc, or) =
      let others = Chain-Visits rest parent l d x k b behind g e (omega arith) or in
      let (c, u, w) = visit_rest rest parent x l d k b behind g q e others in
      let inner =
        Chain-Visits cs (some x) j (suc d) f (suc k) c under (λ a r. rw (← some-injective x a r) lx)
          (λ y r t. Climbs-last y j x k c r t lx o u) (omega arith) oc in
      let (m, z, w') = visit_children cs x f j (suc d) k c under fx lx (omega arith) u inner in
      (refl, (m, z, Walk-append (preorder cs) (preorder rest) m c b w' w))

  Climbs-stop :
      (y l : ℕ) (parent : Option ℕ)
      → parent ≡ root
      → (h y).next ≡ some l
      → (h y).parent ≡ parent
      → ((a : ℕ) → parent ≡ some a → (h a).last ≡ some l)
      → Climbs 0 y (some l)
  unfolding Climbs climb
  Climbs-stop y l none r e q g zero i = absurd (omega arith)
  Climbs-stop y l none r e q g (suc n) i = rw (climb, q, e) refl
  Climbs-stop y l (some a) r e q g zero i = absurd (omega arith)
  Climbs-stop y l (some a) r e q g (suc n) i =
      rw (climb, q, e, g a refl, ← r, same-some l, same-some a) refl

  -- Behind the sentinel `f`, the walk visits the children of the root, or the roots of the store, with
  -- all that is under them, and ends at the sentinel `l`.
  pub Chain-Walk :
      (ts : Forest) (l d f : ℕ)
      → Chain h root l d f ts
      → ((a : ℕ) → root ≡ some a → (h a).last ≡ some l)
      → size ts < fuel
      → Avoids ts
      → Walk (h f).next (preorder ts) (some l)
  Chain-Walk nil l d f c g s o = c.0
  Chain-Walk (tree x f' k cs rest) l d f c g s o = rw (c.0) (
      Chain-Visits (tree x f' k cs rest) root l d f 0 (some l) c g
        (λ y e q. Climbs-stop y l root refl e q g) (omega arith) o)

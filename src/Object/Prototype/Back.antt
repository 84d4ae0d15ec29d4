-- ===== src/Object/Prototype/Back.antt =====
-- The walk by `previous_node()` visits the nodes of a tree in the reverse of preorder.
use mathlib.Core.List.{reverse, reverse_aux, reverse_aux-append}
use oos.Prelude.{
  ℕ, zero, suc, ◌+◌, ◌<◌, ◌≡◌, refl, sym, ap, ◌∙◌, Option, none, some, List, [], ◌∷◌, arith,
}
use oos.Prelude.Outcome.{Outcome, ok}
use oos.Object.Prototype.{Nodes, down, previous_node}
use oos.Object.Prototype.Forest.{Forest, nil, tree, preorder, size, Chain}
use oos.Object.Prototype.Walk.{same-some, Walk, Avoids, Chain-Walk}

-- The last node of a tree whose last node was `y`, with `ts` behind it.
abbrev pub bottom : ℕ → Forest → ℕ
bottom y nil = y
bottom y (tree x f k cs rest) = bottom (bottom x cs) rest

abbrev pub bottom_or : Option ℕ → Forest → Option ℕ
bottom_or z nil = z
bottom_or z (tree x f k cs rest) = some (bottom (bottom x cs) rest)

bottom_or-some : (y : ℕ) (ts : Forest) → bottom_or (some y) ts ≡ some (bottom y ts)
bottom_or-some y nil = refl
bottom_or-some y (tree x f k cs rest) = refl

-- The nodes of `ts` in the reverse order, in front of `xs`.
abbrev pub backwards : Forest → List ℕ → List ℕ
backwards nil xs = xs
backwards (tree x f k cs rest) xs = backwards rest (backwards cs (x ∷ xs))

module _ (h : Nodes) where
  -- Down from a node with the children `cs`, the last of which leads to their last node.
  down_children :
      (cs : Forest) (x f k d m : ℕ)
      → Chain h (some x) k d f cs
      → (h x).first ≡ some f
      → (h x).last ≡ some k
      → suc (size cs) < m
      → ((m' : ℕ)
          → size cs < m'
          → (y : ℕ) × ((h k).prev ≡ some y) × (down m' h y ≡ ok (bottom f cs)))
      → down m h x ≡ ok (bottom x cs)
  unfolding down
  down_children cs x f k d zero c e g s i = absurd (omega arith)
  down_children nil x f k d (suc m) c e g s i = rw (down, g, e, c.1, c.0, same-some k) refl
  down_children (tree y f' k' cs rest) x f k d (suc m) c e g s i =
      let (z, u, v) = i m (omega arith) in rw (down, g, e, u, c.0, c.2) v

  down_sentinel : (f m : ℕ) → (h f).last ≡ none → 0 < m → down m h f ≡ ok f
  unfolding down
  down_sentinel f zero e s = absurd (omega arith)
  down_sentinel f (suc m) e s = rw (down, e) refl

  last-down :
      (ts : Forest) (parent : Option ℕ) (l d p z j m : ℕ)
      → Chain h parent l d p ts
      → ((m' : ℕ) → j < m' → down m' h p ≡ ok z)
      → j + size ts < m
      → (y : ℕ) × ((h l).prev ≡ some y) × (down m h y ≡ ok (bottom z ts))
  last-down nil parent l d p z j m c e s = (p, c.1, e m (omega arith))
  last-down (tree x f k cs rest) parent l d p z j m (n, v, ne, q, dx, fx, lx, fp, fl, under, behind)
        e s =
      last-down rest parent l d x (bottom x cs) (j + suc (size cs)) m behind
        (λ m' i. down_children cs x f k (suc d) m' under fx lx (omega (arith, i)) (λ m'' i'.
          last-down cs (some x) k (suc d) f f 0 m'' under (λ n' t. down_sentinel f n' fl t)
            (omega (arith, i'))))
        (omega arith)

module _ (fuel : ℕ) (h : Nodes) where
  -- A call that gave `r`, and the calls of `previous_node()` behind it, visit `xs`, and then give `b`.
  abbrev pub Back : Outcome (Option ℕ) → List ℕ → Option ℕ → Type 0
  Back r [] b = r ≡ ok b
  Back r (x ∷ xs) b = (r ≡ ok (some x)) × Back (previous_node fuel h x) xs b

  -- What comes behind `p` under `parent` has `z` before it.
  Before : Option ℕ → Option ℕ → Option ℕ → Type 0
  Before parent p z =
      (y : ℕ) → (h y).prev ≡ p → (h y).parent ≡ parent → previous_node fuel h y ≡ ok z

  behind_sentinel : (x f : ℕ) → (h f).prev ≡ none → Before (some x) (some f) (some x)
  unfolding Before previous_node
  behind_sentinel x f e y u v = rw (previous_node, u, e) (ap ok v)

  behind_node :
      (x p z : ℕ) (parent : Option ℕ)
      → (h x).prev ≡ some p
      → down fuel h x ≡ ok z
      → Before parent (some x) (some z)
  unfolding Before previous_node
  behind_node x p z parent e g y u v = rw (previous_node, u, e, g) refl

  Chain-Back :
      (ts : Forest) (parent : Option ℕ) (l d p : ℕ) (z : Option ℕ) (xs : List ℕ) (b : Option ℕ)
      → Chain h parent l d p ts
      → Before parent (some p) z
      → Back (ok z) xs b
      → suc (size ts) < fuel
      → Before parent (h l).prev (bottom_or z ts) × Back (ok (bottom_or z ts)) (backwards ts xs) b
  unfolding Before
  Chain-Back nil parent l d p z xs b c a w s = ((λ y u v. a y (u ∙ c.1) v), w)
  Chain-Back (tree x f k cs rest) parent l d p z xs b
        (n, v, ne, q, dx, fx, lx, fp, fl, under, behind) a w s =
      let here : Back (ok (some x)) (x ∷ xs) b = (refl, rw (a x v q) w) in
      let inner =
        Chain-Back cs (some x) k (suc d) f (some x) (x ∷ xs) b under (behind_sentinel x f fp) here
          (omega arith) in
      let deep : down fuel h x ≡ ok (bottom x cs) =
        down_children h cs x f k (suc d) fuel under fx lx (omega arith) (λ m i.
          last-down h cs (some x) k (suc d) f f 0 m under (λ n' t. down_sentinel h f n' fl t)
            (omega (arith, i))) in
      let e = bottom_or-some x cs in
      let others =
        Chain-Back rest parent l d x (some (bottom x cs)) (backwards cs (x ∷ xs)) b behind
          (behind_node x p (bottom x cs) parent v deep) (rw (← e) inner.1) (omega arith) in
      rw (← bottom_or-some (bottom x cs) rest) others

backwards-reverse_aux : (ts : Forest) (xs : List ℕ) → backwards ts xs ≡ reverse_aux (preorder ts) xs
backwards-reverse_aux nil xs = refl
backwards-reverse_aux (tree x f k cs rest) xs =
    backwards-reverse_aux rest (backwards cs (x ∷ xs))
    ∙ ap (reverse_aux (preorder rest)) (backwards-reverse_aux cs (x ∷ xs))
    ∙ sym (reverse_aux-append (preorder cs) (preorder rest) (x ∷ xs))

Avoids-none : (fuel : ℕ) (h : Nodes) (ts : Forest) → Avoids fuel h none ts
Avoids-none fuel h nil = tt
Avoids-none fuel h (tree x f k cs rest) = (refl, Avoids-none fuel h cs, Avoids-none fuel h rest)

-- In a store that holds the nodes `ts` between the sentinels `f` and `l`, with more fuel than nodes,
-- `next_node()` goes from the first node through all of them in preorder and ends at `l`, and
-- `previous_node()` goes from `l` through them in the reverse order and ends with null.
pub walks-preorder :
    (fuel : ℕ) (h : Nodes) (ts : Forest) (l d f : ℕ)
    → Chain h none l d f ts
    → (h f).prev ≡ none
    → (h l).parent ≡ none
    → suc (size ts) < fuel
    → Walk fuel h none (h f).next (preorder ts) (some l)
      × Back fuel h (previous_node fuel h l) (reverse (preorder ts)) none
unfolding Before previous_node
walks-preorder fuel h ts l d f c e g s =
    let start : Before fuel h none (some f) none = λ y u v. rw (previous_node, u, e) (ap ok v) in
    let (before, back) = Chain-Back fuel h ts none l d f none [] none c start refl s in
    let r : backwards ts [] ≡ reverse (preorder ts) = backwards-reverse_aux ts [] in
    (
      Chain-Walk fuel h none ts l d f c (λ a i. cc) (omega arith) (Avoids-none fuel h ts),
      rw (before l refl g, ← r) back,
    )

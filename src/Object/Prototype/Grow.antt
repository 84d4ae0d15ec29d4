-- ===== src/Object/Prototype/Grow.antt =====
-- `insert(child)` puts a node behind the last child.
use mathlib.Core.Path.{subst}
use oos.Prelude.{
  ℕ, suc, ◌%◌, ◌^◌, ◌<◌, ◌≡◌, refl, ap, inl, inr, true, Option, none, some, List, [], ◌∷◌, ◌++◌,
  arith, ◌==◌, Bool-cases, AllOf, AllOf-weaken,
}
use oos.Prelude.Outcome.{ok}
use oos.Object.Prototype.{Node, Nodes, linked, insert}
use oos.Object.Prototype.Forest.{Forest, nil, tree, Chain}
use oos.Object.Prototype.Apart.{
  addresses, snoc, last_sibling, IsApart, Distinct, IsApart-sym, AllOf-left, AllOf-right,
  Distinct-right, Distinct-left, AllOf-both, Distinct-IsApart, last_sibling_lem, Chain-last_sibling,
}

module _ (h h' : Nodes) where
  abbrev Same : ℕ → Type 0
  Same b = h' b ≡ h b

  -- A chain stays where none of its nodes changes.
  frame :
      (ts : Forest) (parent : Option ℕ) (l d p : ℕ)
      → Same p
      → Same l
      → AllOf Same (addresses ts)
      → Chain h parent l d p ts
      → Chain h' parent l d p ts
  frame nil parent l d p sp sl s c = (rw sp c.0, rw sl c.1)
  frame (tree x f k cs rest) parent l d p sp sl (sx, (sf, (sk, s)))
        (n, v, ne, q, dx, fx, lx, fp, fl, under, behind) =
      (
        rw sp n,
        rw sx v,
        ne,
        rw sx q,
        rw sx dx,
        rw sx fx,
        rw sx lx,
        rw sf fp,
        rw sf fl,
        frame cs (some x) k (suc d) f sf sk (AllOf-left Same (addresses cs) (addresses rest) s)
            under,
        frame rest parent l d x sx sl (AllOf-right Same (addresses cs) (addresses rest) s) behind,
      )

  -- The change at the end of a chain: the last sibling points to the child.
  module _ (child l : ℕ) where
    Kept : ℕ → Forest → Type 0
    Kept p nil = (h' p).next ≡ some child
    Kept p (tree x f k cs rest) =
        ((h' p).next ≡ (h p).next)
        × (h' x ≡ record (h x) { next = (h' x).next })
        × AllOf Same (f ∷ k ∷ addresses cs)
        × Kept x rest

    Chain-snoc :
        (ts : Forest) (parent : Option ℕ) (d p f k : ℕ)
        → Chain h parent l d p ts
        → Kept p ts
        → ((x : ℕ) → x ≡ last_sibling p ts → Chain h' parent l d x (tree child f k nil nil))
        → Chain h' parent l d p (snoc ts child f k)
    unfolding Kept
    Chain-snoc nil parent d p f k c e t = t p refl
    Chain-snoc (tree x g j cs rest) parent d p f k (n, v, ne, q, dx, fx, lx, fp, fl, under, behind)
          (e, sx, (sf, (sk, s)), more) t =
        (
          rw e n,
          rw sx v,
          ne,
          rw sx q,
          rw sx dx,
          rw sx fx,
          rw sx lx,
          rw sf fp,
          rw sf fl,
          frame cs (some x) j (suc d) g sf sk s under,
          Chain-snoc rest parent d x f k behind more t,
        )

    module _ (q : ℕ) (same : (b : ℕ) → IsApart b child → IsApart b l → IsApart b q → Same b)
        (rest_same : (b : ℕ)
          → IsApart b child
          → IsApart b l
          → h' b ≡ record (h b) { next = (h' b).next })
        (next_q : (h' q).next ≡ some child) where
      IsApart-last_sibling :
          (x : ℕ) (zs : List ℕ) (rest : Forest)
          → Distinct (x ∷ zs ++ addresses rest)
          → AllOf (λ c. IsApart c (last_sibling x rest)) zs
      IsApart-last_sibling x [] rest e = tt
      IsApart-last_sibling x (z ∷ zs) rest ((xz, xs), (zr, e)) = (
        last_sibling_lem (IsApart z) x rest (IsApart-sym x z xz)
            (AllOf-right (IsApart z) zs (addresses rest) zr),
        IsApart-last_sibling x zs rest (xs, e),
      )

      Distinct-Kept :
          (ts : Forest) (p : ℕ)
          → last_sibling p ts ≡ q
          → AllOf (λ b. IsApart b child × IsApart b l) (p ∷ addresses ts)
          → Distinct (p ∷ addresses ts)
          → Kept p ts
      unfolding Kept
      Distinct-Kept nil p e a i = rw e next_q
      Distinct-Kept (tree x f k cs rest) p e (po, (ox, os)) (ps, (xs, i)) =
          let zs = f ∷ k ∷ addresses cs in
          let P : ℕ → Type 0 = λ b. IsApart b child × IsApart b l in
          let pq : IsApart p q = rw (← e) (
            last_sibling_lem (IsApart p) x rest ps.0
              (AllOf-right (IsApart p) zs (addresses rest) ps.1)) in
          let zq : AllOf (λ c. IsApart c q) zs =
            subst (λ (r : ℕ). AllOf (λ c. IsApart c r) zs) e
              (IsApart-last_sibling x zs rest (xs, i)) in
          (
            ap (λ (n : Node). n.next) (same p po.0 po.1 pq),
            rest_same x ox.0 ox.1,
            AllOf-both P (λ c. IsApart c q) Same zs (λ c u v. same c u.0 u.1 v)
                (AllOf-left P zs (addresses rest) os) zq,
            Distinct-Kept rest x e (ox, AllOf-right P zs (addresses rest) os)
                (
                  AllOf-right (IsApart x) zs (addresses rest) xs,
                  Distinct-right zs (addresses rest) i,
                ),
          )

-- The writes of `insert(child)` to the child, to the last sibling `q` and to the sentinel `l`.
module _ (h : Nodes) (a child l q : ℕ) where
  pub linked_same :
      (b : ℕ) → IsApart b child → IsApart b l → IsApart b q → linked h a child l q b ≡ h b
  unfolding linked
  linked_same b c e f = rw (c, e, f) refl

  linked_rest :
      (b : ℕ)
      → IsApart b child
      → IsApart b l
      → linked h a child l q b ≡ record (h b) { next = (linked h a child l q b).next }
  unfolding linked
  linked_rest b c e = elim (Bool-cases (b == q)) [
    | inl f ↦ rw (c, e, f) refl
    | inr f ↦ rw (c, e, f) refl
  ]

  pub linked_q : IsApart q child → IsApart q l → (linked h a child l q q).next ≡ some child
  unfolding linked
  linked_q c e = let s : (q == q) ≡ true = ground arith in rw (s, c, e) refl

  pub linked_l : IsApart l child → (linked h a child l q l).prev ≡ some child
  unfolding linked
  linked_l c = let s : (l == l) ≡ true = ground arith in rw (s, c) refl

  pub linked_child :
      IsApart child l
      → IsApart child q
      → IsApart a child
      → IsApart a l
      → IsApart a q
      → linked h a child l q child ≡ record (h child) {
        parent = some a;
        prev = (h l).prev;
        next = some l;
        depth = suc (h a).depth % 2 ^ 32;
      }
  unfolding linked
  linked_child c e x y z =
      let s : (child == child) ≡ true = ground arith in rw (s, c, e, x, y, z) refl

  pub insert-linked :
      (h a).last ≡ some l
      → (h l).prev ≡ some q
      → IsApart l child
      → insert h a child ≡ ok (linked h a child l q)
  unfolding insert
  insert-linked e g c = rw (insert, e, c, g) refl

-- Where the node `a` of a store has the children `cs`, and `child` is a node without children, all
-- their nodes and sentinels different: `insert` succeeds, and in the store that it leaves `a` has the
-- children `cs` and behind them the child, at their depth, with nothing below them changed.
pub insert-Chain :
    (h : Nodes) (a child f l f' k' d : ℕ) (cs : Forest)
    → (h a).last ≡ some l
    → (h a).depth ≡ d
    → suc d < 2 ^ 32
    → (h child).first ≡ some f'
    → (h child).last ≡ some k'
    → (h f').prev ≡ none
    → (h f').last ≡ none
    → (h f').next ≡ some k'
    → (h k').prev ≡ some f'
    → Distinct ((a ∷ f ∷ addresses cs) ++ (child ∷ l ∷ f' ∷ k' ∷ []))
    → Chain h (some a) l (suc d) f cs
    → (h' : Nodes) × (insert h a child ≡ ok h')
      × Chain h' (some a) l (suc d) f (snoc cs child f' k')
insert-Chain h a child f l f' k' d cs la da m fc lc pf tf nf pk i c =
    let tail = child ∷ l ∷ f' ∷ k' ∷ [] in
    let q = last_sibling f cs in
    let old = AllOf-left (IsApart a) (f ∷ addresses cs) tail i.0 in
    let (at, (ft, inner)) = Distinct-IsApart (a ∷ f ∷ addresses cs) tail i in
    let (qc, (ql, (qf, (qk, u)))) = last_sibling_lem (λ x. AllOf (IsApart x) tail) f cs ft inner in
    let aq = last_sibling_lem (IsApart a) f cs old.0 old.1 in
    let ((cl, (cf, (ck, u1))), ((lf, (lk, u2)), v)) =
      Distinct-right (a ∷ f ∷ addresses cs) tail i in
    let h' = linked h a child l q in
    let e : (h l).prev ≡ some q = Chain-last_sibling h cs (some a) l (suc d) f c in
    let w = linked_child h a child l q cl (IsApart-sym q child qc) at.0 at.1.0 aq in
    let sf =
      linked_same h a child l q f' (IsApart-sym child f' cf) (IsApart-sym l f' lf)
        (IsApart-sym q f' qf) in
    let sk =
      linked_same h a child l q k' (IsApart-sym child k' ck) (IsApart-sym l k' lk)
        (IsApart-sym q k' qk) in
    let kept =
      Distinct-Kept h h' child l q (linked_same h a child l q) (linked_rest h a child l q)
        (linked_q h a child l q qc ql) cs f refl
        (AllOf-weaken (λ x. AllOf (IsApart x) tail) (λ x. IsApart x child × IsApart x l)
          (f ∷ addresses cs) (λ x y. (y.0, y.1.0)) (ft, inner))
        (Distinct-left (f ∷ addresses cs) tail i.1) in
    let pq : (h' child).prev ≡ some q = rw w e in
    (
      h',
      insert-linked h a child l q la e (IsApart-sym child l cl),
      Chain-snoc h h' child l cs (some a) (suc d) f f' k' c kept (λ x r. (
        rw r (linked_q h a child l q qc ql),
        rw r pq,
        cl,
        rw w refl,
        rw (w, da) (omega arith),
        rw w fc,
        rw w lc,
        rw sf pf,
        rw sf tf,
        (rw sf nf, rw sk pk),
        (rw w refl, linked_l h a child l q (IsApart-sym child l cl)),
      )),
    )

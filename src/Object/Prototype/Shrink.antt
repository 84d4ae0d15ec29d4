-- ===== src/Object/Prototype/Shrink.antt =====
-- `unlink()` takes back what `insert(child)` did to the other nodes.
use mathlib.Core.Path.{subst}
use oos.Prelude.{
  ℕ, ◌≡◌, refl, sym, ap, ◌∙◌, ◌⊎◌, inl, inr, true, Option, some, [], ◌∷◌, arith, ◌==◌, ==_iff,
  Bool-cases,
}
use oos.Prelude.Outcome.{ok}
use oos.Object.Prototype.{Node, Nodes, linked, insert, unlink, unlinked}
use oos.Object.Prototype.Apart.{IsApart, IsApart-sym, Distinct}
use oos.Object.Prototype.Grow.{insert-linked, linked_same, linked_child}

-- The fields behind the writes of `unlink()` to a node between `q` and `l`.
module _ (h : Nodes) (child q l : ℕ) (cl : IsApart child l) (cq : IsApart child q)
    (ql : IsApart q l) (prev : (h child).prev ≡ some q) (next : (h child).next ≡ some l) where
  unlink-unlinked : unlink h child ≡ ok (unlinked h child q l)
  unfolding unlink
  unlink-unlinked = rw (unlink, prev, cq, next) refl

  unlinked_other :
      (b : ℕ) → IsApart b child → IsApart b q → IsApart b l → unlinked h child q l b ≡ h b
  unfolding unlinked
  unlinked_other b c d e = rw (c, e, d) refl

  unlinked_before : IsApart q child → unlinked h child q l q ≡ record (h q) { next = some l }
  unfolding unlinked
  unlinked_before c = let s : (q == q) ≡ true = ground arith in rw (c, ql, s, next) refl

  unlinked_behind :
      IsApart l child → IsApart l q → unlinked h child q l l ≡ record (h l) { prev = some q }
  unfolding unlinked
  unlinked_behind c d = let s : (l == l) ≡ true = ground arith in rw (c, s, d, cq, prev) refl

module _ (h : Nodes) (a child l q : ℕ) where
  linked_before :
      IsApart q child → IsApart q l → linked h a child l q q ≡ record (h q) { next = some child }
  unfolding linked
  linked_before c e = let s : (q == q) ≡ true = ground arith in rw (c, e, s) refl

  linked_behind :
      IsApart l child → IsApart l q → linked h a child l q l ≡ record (h l) { prev = some child }
  unfolding linked
  linked_behind c e = let s : (l == l) ≡ true = ground arith in rw (c, s, e) refl

  -- The writes of `insert` and then of `unlink` leave every other node as it was.
  restored :
      (b : ℕ)
      → Distinct (a ∷ q ∷ child ∷ l ∷ [])
      → (h q).next ≡ some l
      → (h l).prev ≡ some q
      → (linked h a child l q child).prev ≡ some q
      → (linked h a child l q child).next ≡ some l
      → IsApart b child
      → unlinked (linked h a child l q) child q l b ≡ h b
  restored b ((aq, (ac, (al, u))), ((qc, (ql, v)), ((cl, w), z))) nq pl prev next c =
      let k = linked h a child l q in
      let cq = IsApart-sym q child qc in
      let lc = IsApart-sym child l cl in
      let lq = IsApart-sym q l ql in
      elim (Bool-cases (b == q)) [
        | inl e ↦
            subst (λ (x : ℕ). unlinked k child q l x ≡ h x) (sym ((==_iff b q).0 e))
              (unlinked_before k child q l cl cq ql prev next qc
                ∙ ap (λ (n : Node). record n { next = some l }) (linked_before qc ql)
                ∙ ap (λ (x : Option ℕ). record (h q) { next = x }) (sym nq))
        | inr d ↦ elim (Bool-cases (b == l)) [
          | inl e ↦
              subst (λ (x : ℕ). unlinked k child q l x ≡ h x) (sym ((==_iff b l).0 e))
                (unlinked_behind k child q l cl cq ql prev next lc lq
                  ∙ ap (λ (n : Node). record n { prev = some q }) (linked_behind lc lq)
                  ∙ ap (λ (x : Option ℕ). record (h l) { prev = x }) (sym pl))
          | inr e ↦
              unlinked_other k child q l cl cq ql prev next b c d e
              ∙ linked_same h a child l q b c e d
        ]
      ]

-- Where a store has `q` in front of the sentinel `l` of `a`, and these and the child are different:
-- `insert` succeeds, `unlink` of the child succeeds behind it, and then every node but the child is as
-- it was.
pub unlink-insert :
    (h : Nodes) (a child l q : ℕ)
    → (h a).last ≡ some l
    → (h q).next ≡ some l
    → (h l).prev ≡ some q
    → Distinct (a ∷ q ∷ child ∷ l ∷ [])
    → (h' : Nodes) × (h'' : Nodes) × (insert h a child ≡ ok h')
      × (unlink h' child ≡ ok h'')
      × ((b : ℕ) → (b ≡ child) ⊎ (h'' b ≡ h b))
unlink-insert h a child l q la nq pl apart =
    let ((aq, (ac, (al, u))), ((qc, (ql, v)), ((cl, w), z))) = apart in
    let k = linked h a child l q in
    let cq = IsApart-sym q child qc in
    let e = linked_child h a child l q cl cq ac al aq in
    let prev : (k child).prev ≡ some q = rw e pl in
    let next : (k child).next ≡ some l = rw e refl in
    (
      k,
      unlinked k child q l,
      insert-linked h a child l q la pl (IsApart-sym child l cl),
      unlink-unlinked k child q l cl cq ql prev next,
      (λ b. elim (Bool-cases (b == child)) [
        | inl c ↦ inl ((==_iff b child).0 c)
        | inr c ↦ inr (restored h a child l q b apart nq pl prev next c)
      ]),
    )

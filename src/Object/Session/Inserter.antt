-- ===== src/Object/Session/Inserter.antt =====
-- `action_inserter::insert` replaces the first insert action of the type by one with the proxy
-- behind its others, or appends a new action.
use oos.Prelude.{
  ℕ, suc, ◌+◌, ◌≡◌, refl, List, [], ◌∷◌, ◌++◌, none, some, get_elem?, arith, Bool-cases, inl, inr,
  ◌⊎◌,
}
use oos.Prelude.Bytes.{Bytes, equal}
use oos.Prelude.Fallible.{◌>>=◌}
use oos.Object.Transaction.{Action, insert_action, update_action, delete_action, insert_loop}
use oos.Object.Session.Splice.{splice}

module _ {Obj : Type 0} (type : Bytes) (id : ℕ) where
  -- The loop replaces the action at `at`, and returns its index.
  pub record Takes (i : ℕ) (actions : List (Action Obj)) : Type 0 where
    pub index : ℕ
    pub type_of : Bytes
    pub members : List ℕ
    pub there : get_elem? actions index ≡ some (insert_action type_of members)
    pub returns :
        insert_loop type id i actions
        ≡ some (splice index (insert_action type_of (members ++ id ∷ []) ∷ []) actions, i + index)

  later :
      (i : ℕ) (a : Action Obj) (actions : List (Action Obj)) (t : Takes (i + 1) actions)
      → ◌>>=◌ {B = List (Action Obj) × ℕ}
          (insert_loop type id (i + 1) actions)
          (λ r. some (a ∷ r.0, r.1))
        ≡ some (
          splice (suc t.index) (insert_action t.type_of (t.members ++ id ∷ []) ∷ []) (a ∷ actions),
          i + suc t.index,
        )
  later i a actions t = let e : i + 1 + t.index ≡ i + suc t.index = omega arith in rw (t.returns, e)

  pub insert_loop-Takes :
      (i : ℕ) (actions : List (Action Obj))
      → (insert_loop type id i actions ≡ none) ⊎ Takes i actions
  unfolding insert_loop
  insert_loop-Takes i [] = inl refl
  insert_loop-Takes i (insert_action t ks ∷ actions) = elim (Bool-cases (equal t type)) [
    | inl same ↦ inr (record {
      index = 0;
      type_of = t;
      members = ks;
      there = refl;
      returns = let e : i ≡ i + 0 = omega arith in rw (same, ← e);
    })
    | inr other ↦ elim (insert_loop-Takes (i + 1) actions) [
      | inl n ↦ inl (rw (other, n))
      | inr r ↦ inr (record {
        index = suc r.index;
        type_of = r.type_of;
        members = r.members;
        there = r.there;
        returns = rw other (later i (insert_action t ks) actions r);
      })
    ]
  ]
  insert_loop-Takes i (update_action k ∷ actions) = elim (insert_loop-Takes (i + 1) actions) [
    | inl n ↦ inl (rw n)
    | inr r ↦ inr (record {
      index = suc r.index;
      type_of = r.type_of;
      members = r.members;
      there = r.there;
      returns = later i (update_action k) actions r;
    })
  ]
  insert_loop-Takes i (delete_action k p ∷ actions) = elim (insert_loop-Takes (i + 1) actions) [
    | inl n ↦ inl (rw n)
    | inr r ↦ inr (record {
      index = suc r.index;
      type_of = r.type_of;
      members = r.members;
      there = r.there;
      returns = later i (delete_action k p) actions r;
    })
  ]

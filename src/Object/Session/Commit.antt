-- ===== src/Object/Session/Commit.antt =====
-- Whole transactions: any list of operations between `begin` and `commit`.
use mathlib.Core.Option.{some-injective}
use oos.Prelude.{
  ℕ, ◌+◌, ◌≡◌, refl, sym, ap, ◌∙◌, List, [], ◌∷◌, Option, none, some, ◌==◌, if◌then◌else◌,
  Bool-cases, inl, inr,
}
use oos.Prelude.Fallible.{◌>>=◌, >>=-eq-some}
use oos.Object.Store.{Proxy, ObjectStore, attached}
use oos.Object.Transaction.{Serializer, Action, on_insert, on_delete}
use oos.Object.Session.{
  Session, Operation, insert, modify, remove, notify, execute, run, restore_all, begin, commit,
}
use oos.Object.Session.Log.{Map}
use oos.Object.Session.Invariant.{IsStore, IsIdle, emptied, begin-IsLogged, commit_logged}
use oos.Object.Session.Restore.{restore_all_lem}
use oos.Object.Session.History.{AllRespect, run-IsLogged}

module _ {Obj : Type 0} where
  abbrev with_object : Obj → Option (Proxy Obj) → Option (Proxy Obj)
  with_object o none = none
  with_object o (some p) = some (record p { obj = o })

  -- What the operations do to the last id handed out and to the objects, with no word of transactions.
  abbrev pub effect : Operation Obj → ℕ × Map Obj → ℕ × Map Obj
  effect (insert type o) (n, m) =
      (n + 1, λ j. if j == n + 1 then some (record { oid = n + 1; type = type; obj = o }) else m j)
  effect (modify id o) (n, m) = (n, λ j. if j == id then with_object o (m id) else m j)
  effect (remove id) (n, m) = (n, λ j. if j == id then none else m j)

  abbrev pub effects : List (Operation Obj) → ℕ × Map Obj → ℕ × Map Obj
  effects [] r = r
  effects (o ∷ os) r = effects os (effect o r)

  abbrev objects : ObjectStore Obj → ℕ × Map Obj
  objects store = (store.sequence, store.object_map)

  abbrev pub with_objects : ObjectStore Obj → ℕ × Map Obj → ObjectStore Obj
  with_objects store (n, m) = record store { sequence = n; object_map = m }

  execute-effect :
      (s : Serializer Obj) (o : Operation Obj) (c later : Session Obj)
      → execute s o c ≡ some later
      → later.store ≡ with_objects c.store (effect o (objects c.store))
  unfolding execute
  execute-effect s (insert type o) c later e =
      elim (Bool-cases (attached type c.store.prototypes)) [
        | inl a ↦
            let (d, made, f) =
              >>=-eq-some
                (notify (on_insert (record { oid = c.store.sequence + 1; type = type; obj = o }))
                  c.store.transactions c.data_)
                _ (rw a at e) in
            sym (ap (λ (x : Session Obj). x.store) (some-injective _ later f))
        | inr a ↦ let d : none ≡ some later = rw a at e in cc
      ]
  execute-effect s (modify id o) c later e =
      let (p, here, g) = >>=-eq-some (c.store.object_map id) _ e in
      let (d, made, f) = >>=-eq-some (notify _ c.store.transactions c.data_) _ g in
      sym (ap (λ (x : Session Obj). x.store) (some-injective _ later f))
      ∙ ap
          (λ (q : Option (Proxy Obj)).
            with_objects c.store
              (c.store.sequence, λ j. if j == id then with_object o q else c.store.object_map j))
          (sym here)
  execute-effect s (remove id) c later e =
      let (p, here, g) = >>=-eq-some (c.store.object_map id) _ e in
      let (d, made, f) = >>=-eq-some (notify (on_delete s p) c.store.transactions c.data_) _ g in
      sym (ap (λ (x : Session Obj). x.store) (some-injective _ later f))

  run-effects :
      (s : Serializer Obj) (os : List (Operation Obj)) (c later : Session Obj)
      → run s os c ≡ some later
      → later.store ≡ with_objects c.store (effects os (objects c.store))
  unfolding run
  run-effects s [] c later e = sym (ap (λ (x : Session Obj). x.store) (some-injective c later e))
  run-effects s (o ∷ os) c later e =
      let (mid, first, rest) = >>=-eq-some (execute s o c) (λ d. run s os d) e in
      let f = execute-effect s o c mid first in
      run-effects s os mid later rest
      ∙ ap (λ (x : ObjectStore Obj). with_objects x (effects os (objects x))) f

  -- After any operations of a transaction that began empty on a well-formed store, and of which no
  -- removal erased an inner insert action: the actions that `commit` hands to the observer, taken back
  -- on the store, give the objects at the begin. `commit` throws where the observer does; else it leaves
  -- the objects and the last id that the operations make of those at the begin, takes the transaction
  -- from the stack and empties it.
  pub commit-run :
      (s : Serializer Obj) (on_commit : List (Action Obj) → Option (List (Action Obj)))
      (os : List (Operation Obj)) (c later : Session Obj)
      → IsStore c.store
      → IsIdle c.data_
      → AllRespect s os (begin c)
      → run s os (begin c) ≡ some later
      → (restore_all s later.data_.actions later.data_.object_buffer later.store
          ≡ some ([], record later.store { object_map = c.store.object_map }))
        × (commit on_commit later ≡ (
            on_commit later.data_.actions >>= λ _. some (record {
              store = with_objects c.store (effects os (c.store.sequence, c.store.object_map));
              data_ = emptied later.data_;
            })))
  unfolding begin
  commit-run s on_commit os c later w idle r e =
      let v =
        run-IsLogged s c.store.object_map c.store.transactions os (begin c) later
          (begin-IsLogged s c w idle) r e in
      (
        restore_all_lem s later.store.prototypes c.store.object_map later.data_.actions later.store
            refl v.fits v.distinct v.untouched,
        commit_logged s c.store.object_map c.store.transactions on_commit later v
            ∙ ap
                (λ (x : ObjectStore Obj). on_commit later.data_.actions >>= λ _. some (record {
                  store = record x { transactions = c.store.transactions };
                  data_ = emptied later.data_;
                }))
                (run-effects s os (begin c) later e),
      )

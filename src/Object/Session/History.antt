-- ===== src/Object/Session/History.antt =====
-- Whole transactions: any list of operations between `begin` and `rollback`.
use oos.Prelude.{ℕ, ◌≡◌, List, [], ◌∷◌, some, Bool-cases, Option-cases, inl, inr}
use mathlib.Core.Path.{subst}
use oos.Prelude.Fallible.{>>=-eq-some}
use oos.Object.Store.{attached}
use oos.Object.Transaction.{Serializer}
use oos.Object.Session.{Session, Operation, insert, modify, remove, execute, run, begin, rollback}
use oos.Object.Session.Log.{Map}
use oos.Object.Session.Invariant.{
  IsStore, IsLogged, IsIdle, emptied, begin-IsLogged, rollback_logged,
}
use oos.Object.Session.Modify.{Keeps, modify-IsLogged}
use oos.Object.Session.Insert.{insert-IsLogged}
use oos.Object.Session.Delete.{KeepsIndices, remove-IsLogged}

-- What an operation must respect: a removal keeps the indices of the log.
abbrev pub Respects : {Obj : Type 0} → Operation Obj → Session Obj → Type 0
Respects (insert type o) c = Unit
Respects (modify id o) c = Unit
Respects (remove id) c = KeepsIndices id c

module _ {Obj : Type 0} (s : Serializer Obj) where
  abbrev pub AllRespect : List (Operation Obj) → Session Obj → Type 0
  AllRespect [] c = Unit
  AllRespect (o ∷ os) c =
      Respects o c × ((later : Session Obj) → execute s o c ≡ some later → AllRespect os later)

  -- One operation with a known result in front of others.
  pub AllRespect-cons :
      (o : Operation Obj) (os : List (Operation Obj)) (c next : Session Obj)
      → execute s o c ≡ some next
      → Respects o c
      → AllRespect os next
      → AllRespect (o ∷ os) c
  AllRespect-cons o os c next e r rest =
      (r, λ later f. let same : next ≡ later = cc in subst (AllRespect os) same rest)

  Keeps-IsLogged :
      {before : Map Obj} {outer : List ℕ} {o : Operation Obj} {c : Session Obj}
      (later : Session Obj)
      → Keeps s before outer o c
      → execute s o c ≡ some later
      → IsLogged s before outer later
  Keeps-IsLogged {before} {outer} later k e =
      let same : k.after ≡ later = cc k.returns in subst (IsLogged s before outer) same k.logged

  -- An operation that succeeds, and is no removal that erases an inner insert action, keeps the
  -- invariant of the log: undoing it gives the map at the begin of the transaction.
  pub execute-IsLogged :
      (before : Map Obj) (outer : List ℕ) (o : Operation Obj) (c later : Session Obj)
      → IsLogged s before outer c
      → Respects o c
      → execute s o c ≡ some later
      → IsLogged s before outer later
  unfolding execute
  execute-IsLogged before outer (insert type o) c later v r e =
      elim (Bool-cases (attached type c.store.prototypes)) [
        | inl k ↦ Keeps-IsLogged later (insert-IsLogged s before outer c type o v k) e
        | inr k ↦ absurd (cc (rw k at e))
      ]
  execute-IsLogged before outer (modify id o) c later v r e =
      elim (Option-cases (c.store.object_map id)) [
        | inl n ↦ absurd (cc (rw n at e))
        | inr (p, n) ↦ Keeps-IsLogged later (modify-IsLogged s before outer c id p o v n) e
      ]
  execute-IsLogged before outer (remove id) c later v r e =
      elim (Option-cases (c.store.object_map id)) [
        | inl n ↦ absurd (cc (rw n at e))
        | inr (p, n) ↦ Keeps-IsLogged later (remove-IsLogged s before outer c id p v n r) e
      ]

  pub run-IsLogged :
      (before : Map Obj) (outer : List ℕ) (os : List (Operation Obj)) (c later : Session Obj)
      → IsLogged s before outer c
      → AllRespect os c
      → run s os c ≡ some later
      → IsLogged s before outer later
  unfolding run
  run-IsLogged before outer [] c later v r e =
      let same : c ≡ later = cc in subst (IsLogged s before outer) same v
  run-IsLogged before outer (o ∷ os) c later v r e =
      let (mid, first, rest) = >>=-eq-some (execute s o c) (λ d. run s os d) e in
      run-IsLogged before outer os mid later (execute-IsLogged before outer o c mid v r.0 first)
        (r.1 mid first) rest

  -- After any operations of a transaction that began empty on a well-formed store, and of which no
  -- removal erased an inner insert action, `rollback` gives the map of the store at its begin,
  -- takes the transaction from the stack and empties it.
  pub rollback-run :
      (os : List (Operation Obj)) (c later : Session Obj)
      → IsStore c.store
      → IsIdle c.data_
      → AllRespect os (begin c)
      → run s os (begin c) ≡ some later
      → rollback s later
        ≡ some (record {
          store = record later.store {
            object_map = c.store.object_map;
            transactions = c.store.transactions;
          };
          data_ = emptied later.data_;
        })
  rollback-run os c later w idle r e =
      rollback_logged s c.store.object_map c.store.transactions later (
        run-IsLogged c.store.object_map c.store.transactions os (begin c) later
          (begin-IsLogged s c w idle) r e)

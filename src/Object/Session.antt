-- ===== src/Object/Session.antt =====
-- A store with a transaction on top of its stack: the operations that a program makes in between,
-- `commit` and `rollback` of src/object/transaction.cpp, the `restore` of the three actions, and
-- `insert`, `mark_modified` and `remove` of src/object/object_store.cpp. Objects have no primary key
-- and no relations to others here, so that `insert` and `remove` concern one proxy.
mod Log
mod Splice
mod Inserter
mod Restore
mod Invariant
mod Keep
mod Modify
mod Erase
mod Remove
mod Delete
mod Grow
mod Insert
mod History
mod Commit
mod Stale
mod Tests
use oos.Prelude.{
  ℕ, ◌+◌, ◌≡◌, Bool, true, false, List, [], ◌∷◌, ◌++◌, Option, none, some, ◌==◌, if◌then◌else◌,
}
use oos.Prelude.Bytes.{Bytes}
use oos.Prelude.Fallible.{◌>>=◌}
use oos.Object.Store.{Proxy, ObjectStore, attached, write_at, remove_proxy, insert_proxy}
use oos.Object.Transaction.{
  Serializer, Action, insert_action, update_action, delete_action, TransactionData, on_insert,
  on_update, on_delete,
}

-- A store with the transaction that is on top of its stack.
pub record Session (Obj : Type 0) : Type 0 where
  pub store : ObjectStore Obj
  pub data_ : TransactionData Obj

-- What a program does to the store between `begin` and `commit` or `rollback`.
pub data Operation (Obj : Type 0) : Type 0 where
  insert : Bytes → Obj → Operation Obj
  modify : ℕ → Obj → Operation Obj
  remove : ℕ → Operation Obj

-- `has_transaction() && current_transaction() == *this`
unfoldable pub is_current : ℕ → List ℕ → Bool
is_current id [] = false
is_current id (t ∷ outer) = t == id

module _ {Obj : Type 0} where
  -- `insert_action::restore`
  unfoldable pub remove_all : List ℕ → ObjectStore Obj → Option (ObjectStore Obj)
  unfolding remove_proxy
  remove_all [] store = some store
  remove_all (id ∷ ids) store = do later ← remove_proxy id store; remove_all ids later

  -- `transaction::cleanup`; `pop` of an empty stack is undefined.
  unfoldable pub cleanup : Session Obj → Option (Session Obj)
  cleanup c = elim c.store.transactions [
    | [] ↦ none
    | _ ∷ outer ↦ some (record {
      store = record c.store { transactions = outer };
      data_ = record c.data_ { actions = []; id_action_index_map = []; object_buffer = [] };
    })
  ]

  -- `transaction::begin`
  unfoldable pub begin : Session Obj → Session Obj
  begin c = record c { store = record c.store { transactions = c.data_.id ∷ c.store.transactions } }

  -- `transaction::commit`. The observer is a parameter: `on_commit` gets the actions and may change
  -- them, and `none` is an exception of it, which leaves `commit` and the transaction as it is but for
  -- `committing_`. That flag is set during the call only and decides whether a rollback calls
  -- `on_rollback`, which is left out.
  unfoldable pub commit :
      (List (Action Obj) → Option (List (Action Obj))) → Session Obj → Option (Session Obj)
  unfolding cleanup
  commit on_commit c = do
    actions ← on_commit c.data_.actions
    cleanup (record c { data_ = record c.data_ { actions = actions } })

  -- `if (!transactions_.empty()) …`
  unfoldable pub notify :
      (TransactionData Obj → Option (TransactionData Obj))
      → List ℕ
      → TransactionData Obj
      → Option (TransactionData Obj)
  notify f [] d = some d
  notify f (_ ∷ _) d = f d

  module _ (s : Serializer Obj) where
    -- `object_proxy::restore` of the proxy that the store has at an id
    unfoldable pub restore_object : ℕ → Bytes → ObjectStore Obj → Option (Bytes × ObjectStore Obj)
    restore_object id buffer store = do
      proxy ← store.object_map id
      (o, rest) ← s.read buffer
      some (
        rest,
        record store {
          object_map = write_at id (some (record proxy { obj = o })) store.object_map;
        },
      )

    -- `restore` of the three actions
    unfoldable pub restore : Action Obj → Bytes → ObjectStore Obj → Option (Bytes × ObjectStore Obj)
    unfolding remove_all insert_proxy restore_object
    restore (insert_action t ids) buffer store = do
      later ← remove_all ids store
      some (buffer, later)
    restore (update_action id) buffer store = restore_object id buffer store
    restore (delete_action id proxy) buffer store = do
      there ← elim (store.object_map id) [ none ↦ insert_proxy proxy store | some _ ↦ some store ]
      restore_object id buffer there

    -- The loop of `transaction::rollback`, which takes the actions from the front.
    unfoldable pub restore_all :
        List (Action Obj) → Bytes → ObjectStore Obj → Option (Bytes × ObjectStore Obj)
    unfolding restore
    restore_all [] buffer store = some (buffer, store)
    restore_all (a ∷ actions) buffer store = do
      (rest, later) ← restore a buffer store
      restore_all actions rest later

    -- `transaction::rollback`
    unfoldable pub rollback : Session Obj → Option (Session Obj)
    unfolding is_current restore_all cleanup
    rollback c =
        if is_current c.data_.id c.store.transactions
        then (do
          (rest, store) ← restore_all c.data_.actions c.data_.object_buffer c.store
          cleanup (record c { store = store }))
        else none

    -- `object_store::mark_modified`; the observers of the node are left out.
    abbrev pub mark_modified : Proxy Obj → Session Obj → Option (TransactionData Obj)
    mark_modified proxy c = notify (λ d. some (on_update s proxy d)) c.store.transactions c.data_

    -- `object_store::insert`, `mark_modified` followed by the write that it announces, and
    -- `object_store::remove` of a single object. The ids that are handed out stay below `2 ^ 64`, where
    -- `seq_.next()` would wrap around.
    unfoldable pub execute : Operation Obj → Session Obj → Option (Session Obj)
    unfolding attached notify on_insert on_update on_delete
    execute (insert type o) c =
        if attached type c.store.prototypes
        then (let proxy : Proxy Obj = record { oid = c.store.sequence + 1; type = type; obj = o } in
            do
              d ← notify (on_insert proxy) c.store.transactions c.data_
              some (record {
                store = record c.store {
                  object_map = write_at proxy.oid (some proxy) c.store.object_map;
                  sequence = proxy.oid;
                };
                data_ = d;
              }))
        else none
    execute (modify id o) c = do
      proxy ← c.store.object_map id
      d ← mark_modified proxy c
      some (record {
        store = record c.store {
          object_map = write_at id (some (record proxy { obj = o })) c.store.object_map;
        };
        data_ = d;
      })
    execute (remove id) c = do
      proxy ← c.store.object_map id
      d ← notify (on_delete s proxy) c.store.transactions c.data_
      some (record {
        store = record c.store { object_map = write_at id none c.store.object_map };
        data_ = d;
      })

    unfoldable pub run : List (Operation Obj) → Session Obj → Option (Session Obj)
    unfolding execute
    run [] c = some c
    run (o ∷ os) c = do later ← execute o c; run os later

-- ===== src/Object/Session/Stale.antt =====
-- src/object/action_remover.cpp: removals that erase an insert action in front of others, and the
-- indices of src/object/transaction.cpp behind it.
use oos.Prelude.{◌+◌, ◌≡◌, true, false, [], ◌∷◌, none, some, arith}
use oos.Prelude.Bytes.{Bytes, equal}
use oos.Object.Store.{ObjectStore, attached, write_at}
use oos.Object.Transaction.{Serializer, TransactionData, insert_action}
use oos.Object.Session.{Session, insert, remove, run, execute, begin}
use oos.Object.Session.Invariant.{IsIdle}

module _ {Obj : Type 0} (s : Serializer Obj) (store : ObjectStore Obj) (d : TransactionData Obj)
    (type other : Bytes) (a b : Obj) where
  abbrev start : Session Obj
  start = begin (record { store = store; data_ = d })

  -- What the first three operations leave: the index of the second action is that before the first
  -- one was erased.
  abbrev after_erase : Session Obj
  after_erase =
      let first = store.sequence + 1 in
      let second = store.sequence + 1 + 1 in
      record {
        store = record store {
          object_map = write_at first none (
              write_at second (some (record { oid = second; type = other; obj = b })) (
                write_at first (some (record { oid = first; type = type; obj = a }))
                  store.object_map));
          sequence = second;
          transactions = d.id ∷ store.transactions;
        };
        data_ = record d {
          actions = insert_action other (second ∷ []) ∷ [];
          id_action_index_map = (second, 1) ∷ (first, 0) ∷ [];
        };
      }

  -- In a fresh transaction, objects of two types are inserted and the first is removed again, all of
  -- which succeeds; the second object is then still in the store, and its removal throws.
  pub remove_after_erase :
      attached type store.prototypes ≡ true
      → attached other store.prototypes ≡ true
      → equal type other ≡ false
      → IsIdle d
      → let n = store.sequence in
        (later : Session Obj) × (run s (insert type a ∷ insert other b ∷ remove (n + 1) ∷ []) start
          ≡ some later)
        × (later.store.object_map (n + 1 + 1)
            ≡ some (record { oid = n + 1 + 1; type = other; obj = b }))
        × (execute s (remove (n + 1 + 1)) later ≡ none)
  unfolding run execute begin
  remove_after_erase h k e i = (after_erase, ground arith, ground arith, ground arith)

-- ===== src/Object/Transaction.antt =====
-- src/object/transaction.cpp with action_inserter.cpp, action_remover.cpp, insert_action.cpp,
-- update_action.cpp and delete_action.cpp: how a transaction logs what is done to its store.
--
-- A proxy that was taken out of the store is kept by value in its delete action. The serialized form
-- of an object is an interface, and the byte buffer is a queue of bytes, whose chunks are modelled
-- in Utils/ByteBuffer. `none` is an exception.
use oos.Prelude.{
  ℕ, zero, suc, ◌+◌, ◌≡◌, List, [], ◌∷◌, ◌++◌, Option, none, some, length, ◌==◌, if◌then◌else◌,
}
use oos.Prelude.Bytes.{Bytes, equal}
use oos.Prelude.Fallible.{◌>>=◌}
use oos.Object.Store.{Proxy}

-- What `object_serializer` appends to a buffer for an object, and what `object_deserializer` reads
-- back from its front.
pub record Serializer (Obj : Type 0) : Type 0 where
  pub write : Obj → Bytes
  pub read : Bytes → Option (Obj × Bytes)
  pub read-write : (o : Obj) (rest : Bytes) → read (write o ++ rest) ≡ some (o, rest)

-- `insert_action`, `update_action`, `delete_action`
pub data Action (Obj : Type 0) : Type 0 where
  insert_action : Bytes → List ℕ → Action Obj
  update_action : ℕ → Action Obj
  delete_action : ℕ → Proxy Obj → Action Obj

-- `transaction::transaction_data`
pub record TransactionData (Obj : Type 0) : Type 0 where
  pub id : ℕ
  pub actions : List (Action Obj)
  pub id_action_index_map : List (ℕ × ℕ)
  pub object_buffer : Bytes

-- `find` of the hash map
unfoldable pub find_index : ℕ → List (ℕ × ℕ) → Option ℕ
find_index id [] = none
find_index id ((k, i) ∷ m) = if k == id then some i else find_index id m

-- `insert` of the hash map: an entry that is there stays.
unfoldable pub insert_index : ℕ → ℕ → List (ℕ × ℕ) → List (ℕ × ℕ)
unfolding find_index
insert_index id i m = elim (find_index id m) [ none ↦ (id, i) ∷ m | some _ ↦ m ]

-- `insert_action::find` and `insert_action::erase`
unfoldable pub erase_id : ℕ → List ℕ → List ℕ
erase_id id [] = []
erase_id id (k ∷ ids) = if k == id then ids else k ∷ erase_id id ids

module _ {Obj : Type 0} where
  -- The loop of `action_inserter::insert` and its visitor: the first insert action of the type
  -- takes the proxy, and `i` is its index.
  unfoldable pub insert_loop : Bytes → ℕ → ℕ → List (Action Obj) → Option (List (Action Obj) × ℕ)
  insert_loop type id i [] = none
  insert_loop type id i (insert_action t ids ∷ actions) =
      let rest = insert_loop type id (i + 1) actions in
      if equal t type
      then some (insert_action t (ids ++ id ∷ []) ∷ actions, i)
      else (do (later, j) ← rest; some (insert_action t ids ∷ later, j))
  insert_loop type id i (update_action k ∷ actions) = do
    (later, j) ← insert_loop type id (i + 1) actions
    some (update_action k ∷ later, j)
  insert_loop type id i (delete_action k p ∷ actions) = do
    (later, j) ← insert_loop type id (i + 1) actions
    some (delete_action k p ∷ later, j)

  -- `action_inserter::insert`
  unfoldable pub action_insert : Proxy Obj → List (Action Obj) → List (Action Obj) × ℕ
  unfolding insert_loop
  action_insert proxy actions = elim (insert_loop proxy.type proxy.oid 0 actions) [
    | some found ↦ found
    | none ↦ (actions ++ insert_action proxy.type (proxy.oid ∷ []) ∷ [], length actions)
  ]

  -- `transaction::on_insert`
  unfoldable pub on_insert : Proxy Obj → TransactionData Obj → Option (TransactionData Obj)
  unfolding action_insert find_index insert_index
  on_insert proxy d = elim (find_index proxy.oid d.id_action_index_map) [
    | some _ ↦ none
    | none ↦
        let (actions, index) = action_insert proxy d.actions in
        if index == length actions
        then none
        else some (record d {
          actions = actions;
          id_action_index_map = insert_index proxy.oid index d.id_action_index_map;
        })
  ]

  -- `action_remover::visit` at the action of the index, as what takes its place in the list:
  -- nothing where an insert action ends empty.
  unfoldable pub visit : Proxy Obj → Action Obj → List (Action Obj)
  unfolding erase_id
  visit proxy (insert_action t ids) = elim (erase_id proxy.oid ids) [
    | [] ↦ []
    | k ∷ left ↦ insert_action t (k ∷ left) ∷ []
  ]
  visit proxy (update_action k) =
      if k == proxy.oid then delete_action k proxy ∷ [] else update_action k ∷ []
  visit proxy (delete_action k p) = delete_action k p ∷ []

  -- `action_remover::remove`; `actions_.at(index)` throws out of range.
  unfoldable pub action_remove : ℕ → Proxy Obj → List (Action Obj) → Option (List (Action Obj))
  unfolding visit
  action_remove i proxy [] = none
  action_remove zero proxy (a ∷ actions) = some (visit proxy a ++ actions)
  action_remove (suc i) proxy (a ∷ actions) = do
    later ← action_remove i proxy actions
    some (a ∷ later)

  module _ (s : Serializer Obj) where
    -- `transaction::backup` of the object of a proxy
    unfoldable pub backup : Action Obj → Proxy Obj → TransactionData Obj → TransactionData Obj
    unfolding insert_index
    backup a proxy d = record d {
      actions = d.actions ++ a ∷ [];
      id_action_index_map = insert_index proxy.oid (length d.actions) d.id_action_index_map;
      object_buffer = d.object_buffer ++ s.write proxy.obj;
    }

    -- `transaction::on_update`
    unfoldable pub on_update : Proxy Obj → TransactionData Obj → TransactionData Obj
    unfolding find_index backup
    on_update proxy d = elim (find_index proxy.oid d.id_action_index_map) [
      | none ↦ backup (update_action proxy.oid) proxy d
      | some _ ↦ d
    ]

    -- `transaction::on_delete`
    unfoldable pub on_delete : Proxy Obj → TransactionData Obj → Option (TransactionData Obj)
    unfolding find_index backup action_remove
    on_delete proxy d = elim (find_index proxy.oid d.id_action_index_map) [
      | none ↦ some (backup (delete_action proxy.oid proxy) proxy d)
      | some index ↦ do
        actions ← action_remove index proxy d.actions
        some (record d { actions = actions })
    ]

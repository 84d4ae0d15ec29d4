-- ===== src/Object/Store.antt =====
-- src/object/object_store.cpp, as far as a transaction calls it: the map from ids to proxies, the
-- types that are attached, the sequence of ids and the stack of transactions. A proxy is a value
-- that stands at its id in the map, and a pointer to it is the id. `insert_proxy` and `insert` refuse
-- a proxy without an object, so every proxy here has one; the lists of proxies that the nodes of the
-- prototypes link are not modelled. `none` is an exception.
use oos.Prelude.{ℕ, Bool, true, false, List, [], ◌∷◌, Option, none, some, ◌==◌, if◌then◌else◌}
use oos.Prelude.Bytes.{Bytes, equal}

-- `object_proxy`: `oid`, the type of its node, and the object
pub record Proxy (Obj : Type 0) : Type 0 where
  pub oid : ℕ
  pub type : Bytes
  pub obj : Obj

-- `object_store`: the types that are attached, `object_map_`, the number of `seq_`, and the ids of
-- the transactions on its stack
pub record ObjectStore (Obj : Type 0) : Type 0 where
  pub prototypes : List Bytes
  pub object_map : ℕ → Option (Proxy Obj)
  pub sequence : ℕ
  pub transactions : List ℕ

-- `prototype_map_.find(type)`, for the names of the types
unfoldable pub attached : Bytes → List Bytes → Bool
attached type [] = false
attached type (t ∷ ts) = if equal t type then true else attached type ts

module _ {Obj : Type 0} where
  -- The map with one entry written or erased.
  abbrev pub write_at : ℕ → Option (Proxy Obj) → (ℕ → Option (Proxy Obj)) → ℕ → Option (Proxy Obj)
  write_at id v m j = if j == id then v else m j

  -- `object_store::remove_proxy`
  unfoldable pub remove_proxy : ℕ → ObjectStore Obj → Option (ObjectStore Obj)
  remove_proxy id store = elim (store.object_map id) [
    | none ↦ none
    | some _ ↦ some (record store { object_map = write_at id none store.object_map })
  ]

  -- `object_store::insert_proxy`
  unfoldable pub insert_proxy : Proxy Obj → ObjectStore Obj → Option (ObjectStore Obj)
  unfolding attached
  insert_proxy proxy store =
      if proxy.oid == 0
      then none
      else if attached proxy.type store.prototypes
      then some (record store {
        object_map = elim (store.object_map proxy.oid) [
          | none ↦ write_at proxy.oid (some proxy) store.object_map
          | some _ ↦ store.object_map
        ];
      })
      else none

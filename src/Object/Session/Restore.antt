-- ===== src/Object/Session/Restore.antt =====
-- The loop of `rollback` takes a store back to the one that its log fits.
use oos.Prelude.{
  ℕ, ◌<◌, ◌≡◌, refl, sym, ap, true, false, List, [], ◌∷◌, ◌++◌, Option, none, some, ◌==◌, ==_iff,
  if◌then◌else◌, arith, Bool-cases, inl, inr,
}
use mathlib.Core.Path.{fun_ext}
use oos.Prelude.Bytes.{Bytes}
use oos.Object.Store.{Proxy, ObjectStore, attached, write_at, remove_proxy, insert_proxy}
use oos.Object.Transaction.{Serializer, Action, insert_action, update_action, delete_action}
use oos.Object.Session.{remove_all, restore_object, restore, restore_all}
use oos.Object.Session.Log.{
  contains, AllDistinct, contains-append, AllDistinct-split, Map, ids, AllNew, AllNew-before, Fits,
  done, inserted, updated, deleted, AllNew-frame, Fits_frame,
}

module _ {Obj : Type 0} where
  -- The map without the ids of a list.
  abbrev clear : List ℕ → Map Obj → Map Obj
  clear [] m = m
  clear (k ∷ ks) m = clear ks (write_at k none m)

  clear_lem :
      (ks : List ℕ) (m : Map Obj) (j : ℕ) → clear ks m j ≡ (if contains j ks then none else m j)
  clear_lem [] m j = refl
  clear_lem (k ∷ ks) m j = ground (arith, clear_lem ks (write_at k none m) j)

  remove_all_lem :
      (ks : List ℕ) (store : ObjectStore Obj) (before : Map Obj)
      → AllNew before store.object_map ks
      → AllDistinct ks
      → remove_all ks store ≡ some (record store { object_map = clear ks store.object_map })
  unfolding remove_all
  remove_all_lem [] store before v d = refl
  remove_all_lem (k ∷ ks) store before v d =
      rw (v.1.1, remove_proxy)
        (remove_all_lem ks (record store { object_map = write_at k none store.object_map }) before
          (AllNew-frame before store.object_map (write_at k none store.object_map) ks
            (λ j c. ground (arith, ==_iff j k)) v.2)
          d.1)

  insert_proxy_new :
      (id : ℕ) (p : Proxy Obj) (store : ObjectStore Obj)
      → store.object_map id ≡ none
      → p.oid ≡ id
      → 0 < id
      → attached p.type store.prototypes ≡ true
      → insert_proxy p store
        ≡ some (record store { object_map = write_at id (some p) store.object_map })
  unfolding insert_proxy
  insert_proxy_new id p store n o z a =
      let t : (id == 0) ≡ false = ground arith in simp (o, t, a, n)

  module _ (s : Serializer Obj) (types : List Bytes) (before : Map Obj) where
    restore_object_lem :
        (id : ℕ) (old new : Proxy Obj) (buffer rest : Bytes) (store : ObjectStore Obj)
        → store.object_map id ≡ some new
        → record new { obj = old.obj } ≡ old
        → buffer ≡ s.write old.obj ++ rest
        → restore_object s id buffer store
          ≡ some (rest, record store { object_map = write_at id (some old) store.object_map })
    unfolding restore_object
    restore_object_lem id old new buffer rest store n e w = rw (n, w, s.read-write old.obj rest, e)

    restore_delete_action :
        (id : ℕ) (old p : Proxy Obj) (buffer rest : Bytes) (store : ObjectStore Obj)
        → store.object_map id ≡ none
        → record p { obj = old.obj } ≡ old
        → p.oid ≡ id
        → 0 < id
        → attached p.type store.prototypes ≡ true
        → buffer ≡ s.write old.obj ++ rest
        → restore s (delete_action id p) buffer store
          ≡ some (
            rest,
            record store {
              object_map = write_at id (some old) (write_at id (some p) store.object_map);
            },
          )
    unfolding restore
    restore_delete_action id old p buffer rest store n e o z a w =
        rw (n, restore, insert_proxy_new id p store n o z a)
          (restore_object_lem id old p buffer rest
            (record store { object_map = write_at id (some p) store.object_map })
            (ground (arith, ==_iff id id)) e w)

    pub restore_all_lem :
        (actions : List (Action Obj)) {buffer : Bytes} (store : ObjectStore Obj)
        → store.prototypes ≡ types
        → Fits s types before store.object_map actions buffer
        → AllDistinct (ids actions)
        → ((j : ℕ) → contains j (ids actions) ≡ false → store.object_map j ≡ before j)
        → restore_all s actions buffer store ≡ some ([], record store { object_map = before })
    unfolding restore_all
    restore_all_lem [] store t done d h =
        ap {B = Option (Bytes × ObjectStore Obj)}
          (λ (m : Map Obj). some ([], record store { object_map = m })) (fun_ext (λ j. h j refl))
    restore_all_lem (insert_action ty ks ∷ actions) {buffer} store t (inserted v f) d h =
        let m = store.object_map in
        let (dk, da, apart) = AllDistinct-split ks (ids actions) d in
        rw (remove_all_lem ks store before v dk) (
          restore_all_lem actions (record store { object_map = clear ks m }) t
            (Fits_frame s types actions (λ j c. ground (arith, clear_lem ks m j, apart j)) f) da
            λ j c. ground (
              arith,
              clear_lem ks m j,
              AllNew-before before m ks j v,
              h j,
              contains-append j ks (ids actions),
            ))
    restore_all_lem (update_action id ∷ actions) {buffer} store t (updated old new rest b n e w f) d
          h =
        let m = store.object_map in
        rw (restore_object_lem id old new buffer rest store n e w) (
          restore_all_lem actions (record store { object_map = write_at id (some old) m }) t
            (Fits_frame s types actions (λ j c. ground (arith, ==_iff j id)) f) d.1
            λ j c. elim (Bool-cases (j == id)) [
              | inl q ↦ rw q (rw (← (==_iff j id).0 q) at (sym b))
              | inr q ↦ rw q (h j (ground arith))
            ])
    restore_all_lem (delete_action id p ∷ actions) {buffer} store t
          (deleted old rest b n e o z a w f) d h =
        let m = store.object_map in
        rw (restore_delete_action id old p buffer rest store n e o z (rw (← t) at a) w) (
          restore_all_lem actions
            (record store { object_map = write_at id (some old) (write_at id (some p) m) }) t
            (Fits_frame s types actions (λ j c. ground (arith, ==_iff j id)) f) d.1
            λ j c. elim (Bool-cases (j == id)) [
              | inl q ↦ rw q (rw (← (==_iff j id).0 q) at (sym b))
              | inr q ↦ rw q (h j (ground arith))
            ])

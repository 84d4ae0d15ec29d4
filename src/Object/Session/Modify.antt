-- ===== src/Object/Session/Modify.antt =====
-- `mark_modified` and the write that follows it keep the invariant: the first change of an object
-- logs its old value, and later ones change only the store.
use oos.Prelude.{
  ℕ, ◌≡◌, refl, sym, ◌∙◌, ap, List, [], ◌∷◌, ◌++◌, none, some, length, ◌==◌, ==_iff, arith,
  Bool-cases, Option-cases, inl, inr, append-nil,
}
use mathlib.Core.Path.{subst}
use oos.Prelude.Bytes.{Bytes}
use oos.Object.Store.{Proxy, ObjectStore, write_at}
use oos.Object.Transaction.{
  Serializer, Action, insert_action, update_action, delete_action, find_index, insert_index, backup,
  on_update,
}
use oos.Object.Session.{Session, Operation, modify, notify, execute}
use oos.Object.Session.Log.{Map, AllNew, Fits, done, inserted, updated, deleted}
use oos.Object.Session.Splice.{contains_get}
use oos.Object.Session.Invariant.{IsStore, IsLogged}
use oos.Object.Session.Keep.{IsStore-write, IsLogged-append}

-- An operation that succeeds and keeps the invariant.
pub record Keeps {Obj : Type 0} (s : Serializer Obj) (before : Map Obj) (outer : List ℕ)
    (o : Operation Obj) (c : Session Obj) : Type 0 where
  pub after : Session Obj
  pub returns : execute s o c ≡ some after
  pub logged : IsLogged s before outer after

module _ {Obj : Type 0} (s : Serializer Obj) (types : List Bytes) (before now : Map Obj) (id : ℕ)
    (p : Proxy Obj) (o : Obj) (here : now id ≡ some p) where
  abbrev changed : Map Obj
  changed = write_at id (some (record p { obj = o })) now

  AllNew-modify : (ks : List ℕ) → AllNew before now ks → AllNew before changed ks
  AllNew-modify [] v = tt
  AllNew-modify (k ∷ ks) v = elim (Bool-cases (k == id)) [
    | inl e ↦ (v.0, (record p { obj = o }, rw e), AllNew-modify ks v.2)
    | inr e ↦ (v.0, (v.1.0, rw e v.1.1), AllNew-modify ks v.2)
  ]

  -- A new value of an object that is in the store breaks no log.
  Fits_modify :
      (actions : List (Action Obj)) {buffer : Bytes}
      → Fits s types before now actions buffer
      → Fits s types before changed actions buffer
  Fits_modify [] done = done
  Fits_modify (insert_action t ks ∷ actions) (inserted v f) =
      inserted (AllNew-modify ks v) (Fits_modify actions f)
  Fits_modify (update_action k ∷ actions) (updated old new rest b n e w f) =
      elim (Bool-cases (k == id)) [
        | inl q ↦
            let same : new ≡ p = cc ((==_iff k id).0 q) in
            updated old (record p { obj = o }) rest b (rw q) (rw same at e) w
              (Fits_modify actions f)
        | inr q ↦ updated old new rest b (rw q n) e w (Fits_modify actions f)
      ]
  Fits_modify (delete_action k r ∷ actions) (deleted old rest b n e i z a w f) =
      elim (Bool-cases (k == id)) [
        | inl q ↦ absurd (cc ((==_iff k id).0 q))
        | inr q ↦ deleted old rest b (rw q n) e i z a w (Fits_modify actions f)
      ]

module _ {Obj : Type 0} (s : Serializer Obj) (before : Map Obj) (outer : List ℕ) (c : Session Obj)
    (v : IsLogged s before outer c) (p : Proxy Obj) (o : Obj)
    (here : c.store.object_map p.oid ≡ some p) where
  abbrev store_after : ObjectStore Obj
  store_after = record c.store {
    object_map = write_at p.oid (some (record p { obj = o })) c.store.object_map;
  }

  IsStore-after : IsStore store_after
  IsStore-after =
      IsStore-write c.store p.oid c.store.sequence (record p { obj = o }) v.wf refl
        (v.wf.positive p.oid p here) (v.wf.type_is p.oid p here) (v.wf.handed_out p.oid p here)
        (omega arith)

  modify_logged :
      (i : ℕ)
      → find_index p.oid c.data_.id_action_index_map ≡ some i
      → Keeps s before outer (modify p.oid o) c
  unfolding execute notify on_update
  modify_logged i e = record {
    after = record { store = store_after; data_ = c.data_ };
    returns = rw (here, v.current, on_update, e);
    logged = record {
      wf = IsStore-after;
      current = v.current;
      fits =
          Fits_modify s c.store.prototypes before c.store.object_map p.oid p o here c.data_.actions
            v.fits;
      distinct = v.distinct;
      untouched = λ j h.
          let k = v.indexed p.oid i p e here in
          ground (
            arith,
            v.untouched j,
            ==_iff j p.oid,
            contains_get c.data_.actions i p.oid k.action k.at k.about,
          );
      logged_le = v.logged_le;
      indexed_le = v.indexed_le;
      indexed = λ j n q f g. elim (Bool-cases (j == p.oid)) [
        | inl same ↦ v.indexed j n p f (ap c.store.object_map ((==_iff j p.oid).0 same) ∙ here)
        | inr other ↦ v.indexed j n q f (rw other at g)
      ];
      unlogged = v.unlogged;
    };
  }

  modify_unlogged :
      find_index p.oid c.data_.id_action_index_map ≡ none → Keeps s before outer (modify p.oid o) c
  unfolding execute notify on_update backup
  modify_unlogged e = record {
    after = record {
      store = store_after;
      data_ = record c.data_ {
        actions = c.data_.actions ++ update_action p.oid ∷ [];
        id_action_index_map =
            insert_index p.oid (length c.data_.actions) c.data_.id_action_index_map;
        object_buffer = c.data_.object_buffer ++ s.write p.obj;
      };
    };
    returns = rw (here, v.current, on_update, e);
    logged =
        IsLogged-append s before outer c store_after (update_action p.oid) p.oid (s.write p.obj) v
          IsStore-after refl refl (omega arith) (v.wf.handed_out p.oid p here) (λ j h. rw h refl) e
          refl
          (updated p (record p { obj = o }) [] (sym (v.untouched p.oid (v.unlogged p.oid e)) ∙ here)
            (ground (arith, ==_iff p.oid p.oid)) refl (sym (append-nil _)) done);
  }

-- `mark_modified` of any proxy of the store, and the write, succeed and keep the invariant.
pub modify-IsLogged :
    {Obj : Type 0} (s : Serializer Obj) (before : Map Obj) (outer : List ℕ) (c : Session Obj)
    (id : ℕ) (p : Proxy Obj) (o : Obj)
    → IsLogged s before outer c
    → c.store.object_map id ≡ some p
    → Keeps s before outer (modify id o) c
modify-IsLogged s before outer c id p o v here =
    let e = v.wf.oid_is id p here in
    let there = ap c.store.object_map e ∙ here in
    subst (λ (k : ℕ). Keeps s before outer (modify k o) c) e
      (elim (Option-cases (find_index p.oid c.data_.id_action_index_map)) [
        | inl n ↦ modify_unlogged s before outer c v p o there n
        | inr (i, n) ↦ modify_logged s before outer c v p o there i n
      ])

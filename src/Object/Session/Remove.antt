-- ===== src/Object/Session/Remove.antt =====
-- `remove` keeps the invariant, unless it erases an insert action that has others behind it.
use oos.Prelude.{
  ℕ, ◌≡◌, refl, sym, ◌∙◌, true, false, List, [], ◌∷◌, ◌++◌, none, some, length, get_elem?, ◌==◌,
  ==_iff, if◌then◌else◌, arith, Bool-cases, inl, inr, append-nil,
}
use oos.Object.Store.{Proxy, ObjectStore, write_at}
use oos.Object.Transaction.{
  Serializer, Action, delete_action, TransactionData, find_index, insert_index, visit, on_delete,
}
use oos.Object.Session.{Session, remove, execute}
use oos.Object.Session.Log.{contains, AllDistinct, Map, ids_of, ids, Fits, done, deleted}
use oos.Object.Session.Splice.{splice, Covers, contains_get, contains-splice, AllDistinct-splice}
use oos.Object.Session.Invariant.{IsLogged}
use oos.Object.Session.Keep.{notify_on, IsStore-erase, IsLogged-append}
use oos.Object.Session.Modify.{Keeps}
use oos.Object.Session.Erase.{action_remove-splice}

module _ {Obj : Type 0} (s : Serializer Obj) (before : Map Obj) (outer : List ℕ) (c : Session Obj)
    (v : IsLogged s before outer c) (p : Proxy Obj) (here : c.store.object_map p.oid ≡ some p) where
  abbrev pub store_after : ObjectStore Obj
  store_after = record c.store { object_map = write_at p.oid none c.store.object_map }

  execute_remove :
      (d : TransactionData Obj)
      → on_delete s p c.data_ ≡ some d
      → execute s (remove p.oid) c ≡ some (record { store = store_after; data_ = d })
  unfolding execute
  execute_remove d e =
      rw
        (here, notify_on (on_delete s p) c.store.transactions c.data_.id outer c.data_ v.current, e)

  pub remove_unlogged :
      find_index p.oid c.data_.id_action_index_map ≡ none → Keeps s before outer (remove p.oid) c
  unfolding on_delete
  remove_unlogged n = record {
    after = record {
      store = store_after;
      data_ = record c.data_ {
        actions = c.data_.actions ++ delete_action p.oid p ∷ [];
        id_action_index_map =
            insert_index p.oid (length c.data_.actions) c.data_.id_action_index_map;
        object_buffer = c.data_.object_buffer ++ s.write p.obj;
      };
    };
    returns = execute_remove _ (rw (on_delete, n));
    logged =
        IsLogged-append s before outer c store_after (delete_action p.oid p) p.oid (s.write p.obj) v
          (IsStore-erase c.store p.oid v.wf) refl refl (omega arith) (v.wf.handed_out p.oid p here)
          (λ j h. rw h refl) n refl
          (deleted p [] (sym (v.untouched p.oid (v.unlogged p.oid n)) ∙ here)
            (ground (arith, ==_iff p.oid p.oid)) refl refl (v.wf.positive p.oid p here)
            (v.wf.type_is p.oid p here) (sym (append-nil (s.write p.obj))) done);
  }

  -- The log entry of the proxy is replaced by `bs`.
  module _ (i : ℕ) (a : Action Obj) (bs : List (Action Obj))
      (found : find_index p.oid c.data_.id_action_index_map ≡ some i)
      (there : get_elem? c.data_.actions i ≡ some a) (visits : visit p a ≡ bs)
      (about : contains p.oid (ids_of a) ≡ true)
      (fewer : (j : ℕ) → contains j (ids bs) ≡ true → contains j (ids_of a) ≡ true)
      (stay : (j : ℕ)
        → (j == p.oid) ≡ false
        → contains j (ids_of a) ≡ true
        → contains j (ids bs) ≡ true)
      (gone : contains p.oid (ids bs) ≡ false → before p.oid ≡ none) (apart : AllDistinct (ids bs))
      (covers : (n j : ℕ)
        → (j == p.oid) ≡ false
        → Covers n j c.data_.actions
        → Covers n j (splice i bs c.data_.actions))
      (fits : Fits s c.store.prototypes before store_after.object_map
        (splice i bs c.data_.actions)
        c.data_.object_buffer) where
    member :
        (j : ℕ)
        → contains j (ids (splice i bs c.data_.actions)) ≡ (
            if contains j (ids bs)
            then true
            else if contains j (ids_of a)
            then false
            else contains j (ids c.data_.actions))
    member j = contains-splice c.data_.actions bs i j a there v.distinct

    inside : (j : ℕ) → contains j (ids_of a) ≡ true → contains j (ids c.data_.actions) ≡ true
    inside j = contains_get c.data_.actions i j a there

    unlogged_after :
        (j : ℕ)
        → contains j (ids c.data_.actions) ≡ false
        → contains j (ids (splice i bs c.data_.actions)) ≡ false
    unlogged_after j h = ground (arith, member j, fewer j, inside j)

    pub remove_logged : Keeps s before outer (remove p.oid) c
    unfolding on_delete
    remove_logged = record {
      after = record {
        store = store_after;
        data_ = record c.data_ { actions = splice i bs c.data_.actions };
      };
      returns =
          execute_remove _
            (rw (on_delete, found) (rw (action_remove-splice i p c.data_.actions a there, visits)));
      logged = record {
        wf = IsStore-erase c.store p.oid v.wf;
        current = v.current;
        fits = fits;
        distinct =
            AllDistinct-splice c.data_.actions bs i a there v.distinct apart
              (λ j m n. absurd (cc (fewer j m)));
        untouched = λ j h. elim (Bool-cases (j == p.oid)) [
          | inl q ↦ rw q (ground (arith, member j, gone, ==_iff j p.oid))
          | inr q ↦ rw q (v.untouched j (ground (arith, member j, stay j q)))
        ];
        logged_le = λ j h. v.logged_le j (ground (arith, member j, fewer j, inside j));
        indexed_le = v.indexed_le;
        indexed = λ j n q f e. elim (Bool-cases (j == p.oid)) [
          | inl w ↦ absurd (cc (rw w at e))
          | inr w ↦ covers n j w (v.indexed j n q f (rw w at e))
        ];
        unlogged = λ j n. unlogged_after j (v.unlogged j n);
      };
    }

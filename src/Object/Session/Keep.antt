-- ===== src/Object/Session/Keep.antt =====
-- What the three operations share: the index map, the notification, and the well-formed store.
use oos.Prelude.{
  ℕ, ◌<◌, ◌≤◌, ◌≡◌, refl, ◌∙◌, true, false, List, [], ◌∷◌, ◌++◌, Option, none, some, length, ◌==◌,
  ==_iff, if◌then◌else◌, arith, Bool-cases, inl, inr, append-nil,
}
use oos.Prelude.Bytes.{Bytes}
use oos.Object.Store.{Proxy, ObjectStore, attached, write_at}
use oos.Object.Transaction.{Serializer, Action, TransactionData, find_index, insert_index}
use oos.Object.Session.{Session, notify}
use oos.Object.Session.Log.{
  contains, contains-append, AllDistinct-append, Map, ids_of, ids, ids-append, Fits, Fits_frame,
}
use oos.Object.Session.Splice.{Fits-append, get_elem?-append, get_elem?-concat, lt_of_get}
use oos.Object.Session.Invariant.{IsStore, IsLogged}

pub find_index-insert_index :
    (j id i : ℕ) (m : List (ℕ × ℕ))
    → find_index id m ≡ none
    → find_index j (insert_index id i m) ≡ (if j == id then some i else find_index j m)
unfolding insert_index
find_index-insert_index j id i m h = rw (h, insert_index) (ground (arith, ==_iff id j, ==_iff j id))

module _ {Obj : Type 0} where
  pub notify_on :
      (f : TransactionData Obj → Option (TransactionData Obj)) (ts : List ℕ) (t : ℕ)
      (outer : List ℕ) (d : TransactionData Obj)
      → ts ≡ t ∷ outer
      → notify f ts d ≡ f d
  unfolding notify
  notify_on f ts t outer d e = rw e

  pub IsStore-write :
      (store : ObjectStore Obj) (id seq : ℕ) (q : Proxy Obj)
      → IsStore store
      → q.oid ≡ id
      → 0 < id
      → attached q.type store.prototypes ≡ true
      → id ≤ seq
      → store.sequence ≤ seq
      → IsStore
          (record store { object_map = write_at id (some q) store.object_map; sequence = seq })
  IsStore-write store id seq q w o z a le up = record {
    oid_is = λ j p e. ground (arith, w.oid_is j p, ==_iff j id);
    positive = λ j p e. ground (arith, w.positive j p, ==_iff j id);
    type_is = λ j p e. ground (arith, w.type_is j p, ==_iff j id);
    handed_out = λ j p e. ground (arith, w.handed_out j p, ==_iff j id);
  }

  pub IsStore-erase :
      (store : ObjectStore Obj) (id : ℕ)
      → IsStore store
      → IsStore (record store { object_map = write_at id none store.object_map })
  IsStore-erase store id w = record {
    oid_is = λ j p e. ground (arith, w.oid_is j p);
    positive = λ j p e. ground (arith, w.positive j p);
    type_is = λ j p e. ground (arith, w.type_is j p);
    handed_out = λ j p e. ground (arith, w.handed_out j p);
  }

  -- One action about a proxy that the log does not name yet, put behind the others, while the
  -- store's map changes at the proxy's id.
  pub IsLogged-append :
      (s : Serializer Obj) (before : Map Obj) (outer : List ℕ) (c : Session Obj)
      (store : ObjectStore Obj) (a : Action Obj) (id : ℕ) (more : Bytes)
      → IsLogged s before outer c
      → IsStore store
      → store.prototypes ≡ c.store.prototypes
      → store.transactions ≡ c.store.transactions
      → c.store.sequence ≤ store.sequence
      → id ≤ store.sequence
      → ((j : ℕ) → (j == id) ≡ false → c.store.object_map j ≡ store.object_map j)
      → find_index id c.data_.id_action_index_map ≡ none
      → ids_of a ≡ id ∷ []
      → Fits s c.store.prototypes before store.object_map (a ∷ []) more
      → IsLogged s before outer (record {
        store = store;
        data_ = record c.data_ {
          actions = c.data_.actions ++ a ∷ [];
          id_action_index_map =
              insert_index id (length c.data_.actions) c.data_.id_action_index_map;
          object_buffer = c.data_.object_buffer ++ more;
        };
      })
  IsLogged-append s before outer c store a id more v w types ts seq le agree fresh about fits =
      let actions = c.data_.actions in
      let m = c.data_.id_action_index_map in
      let absent = v.unlogged id fresh in
      let member : (j : ℕ)
          → contains j (ids (actions ++ a ∷ []))
            ≡ (if contains j (ids actions) then true else j == id) =
        λ j.
          rw (ids-append actions (a ∷ []), append-nil (ids_of a), about)
            (ground (arith, contains-append j (ids actions) (id ∷ []))) in
      let index : (j : ℕ)
          → find_index j (insert_index id (length actions) m)
            ≡ (if j == id then some (length actions) else find_index j m) =
        λ j. find_index-insert_index j id (length actions) m fresh in
      record {
        wf = w;
        current = ts ∙ v.current;
        fits = rw types (
            Fits-append s c.store.prototypes before store.object_map actions (a ∷ []) more
              (Fits_frame s c.store.prototypes actions
                (λ j h. ground (arith, agree j, ==_iff j id, absent)) v.fits)
              fits);
        distinct =
            rw (ids-append actions (a ∷ []), append-nil (ids_of a), about)
              (AllDistinct-append (ids actions) (id ∷ []) v.distinct (refl, tt)
                λ j h. ground (arith, ==_iff j id, absent));
        untouched = λ j h. ground (arith, member j, agree j, v.untouched j);
        logged_le = λ j h. ground (arith, member j, v.logged_le j, ==_iff j id);
        indexed_le = λ j i h. ground (arith, index j, v.indexed_le j i, ==_iff j id);
        indexed = λ j i p h e. elim (Bool-cases (j == id)) [
          | inl same ↦ record {
            action = a;
            at =
                let q : length actions ≡ i = ground (arith, index j) in
                rw (← q) (get_elem?-concat actions a);
            about = rw about (rw same);
          }
          | inr other ↦
              let old = v.indexed j i p (ground (arith, index j)) (agree j other ∙ e) in
              record {
                action = old.action;
                at = get_elem?-append actions (a ∷ []) i (lt_of_get actions i old.at) ∙ old.at;
                about = old.about;
              }
        ];
        unlogged = λ j h. ground (arith, index j, member j, v.unlogged j);
      }

-- ===== src/Object/Session/Invariant.antt =====
-- The invariant of a session: what the log of the open transaction says of the store at its begin.
use oos.Prelude.{
  Option-cases, inl, inr, refl, Option, ℕ, ◌<◌, ◌≤◌, ◌≡◌, refl, true, false, List, [], ◌∷◌, none,
  some, ==_iff, arith,
}
use oos.Object.Store.{Proxy, ObjectStore, attached}
use oos.Object.Transaction.{Action, Serializer, TransactionData, find_index}
use oos.Prelude.Fallible.{◌>>=◌}
use oos.Object.Session.{Session, is_current, cleanup, rollback, begin, commit}
use oos.Object.Session.Log.{contains, AllDistinct, Map, ids, Fits, done}
use oos.Object.Session.Splice.{Covers}
use oos.Object.Session.Restore.{restore_all_lem}

-- The store's map is well formed: a proxy stands at its id, ids start at 1 and are handed out by the
-- sequence, and its type is attached.
pub record IsStore {Obj : Type 0} (store : ObjectStore Obj) : Type 0 where
  pub oid_is : (j : ℕ) (p : Proxy Obj) → store.object_map j ≡ some p → p.oid ≡ j
  pub positive : (j : ℕ) (p : Proxy Obj) → store.object_map j ≡ some p → 0 < j
  pub type_is :
      (j : ℕ) (p : Proxy Obj)
      → store.object_map j ≡ some p
      → attached p.type store.prototypes ≡ true
  pub handed_out : (j : ℕ) (p : Proxy Obj) → store.object_map j ≡ some p → j ≤ store.sequence

module _ {Obj : Type 0} where
  pub record IsLogged (s : Serializer Obj) (before : Map Obj) (outer : List ℕ) (c : Session Obj)
      : Type 0 where
    pub wf : IsStore c.store
    pub current : c.store.transactions ≡ c.data_.id ∷ outer
    pub fits :
        Fits s c.store.prototypes before c.store.object_map c.data_.actions c.data_.object_buffer
    pub distinct : AllDistinct (ids c.data_.actions)
    pub untouched :
        (j : ℕ) → contains j (ids c.data_.actions) ≡ false → c.store.object_map j ≡ before j
    pub logged_le : (j : ℕ) → contains j (ids c.data_.actions) ≡ true → j ≤ c.store.sequence
    pub indexed_le :
        (j i : ℕ) → find_index j c.data_.id_action_index_map ≡ some i → j ≤ c.store.sequence
    pub indexed :
        (j i : ℕ) (p : Proxy Obj)
        → find_index j c.data_.id_action_index_map ≡ some i
        → c.store.object_map j ≡ some p
        → Covers i j c.data_.actions
    pub unlogged :
        (j : ℕ)
        → find_index j c.data_.id_action_index_map ≡ none
        → contains j (ids c.data_.actions) ≡ false

  -- A transaction with nothing in its log, which is not begun yet.
  pub record IsIdle (d : TransactionData Obj) : Type 0 where
    pub no_actions : d.actions ≡ []
    pub no_indices : d.id_action_index_map ≡ []
    pub no_bytes : d.object_buffer ≡ []

  -- The emptied transaction that `cleanup` leaves.
  abbrev pub emptied : TransactionData Obj → TransactionData Obj
  emptied d = record d { actions = []; id_action_index_map = []; object_buffer = [] }

  pub begin-IsLogged :
      (s : Serializer Obj) (c : Session Obj)
      → IsStore c.store
      → IsIdle c.data_
      → IsLogged s c.store.object_map c.store.transactions (begin c)
  unfolding begin find_index
  begin-IsLogged s c w h = record {
    wf = record {
      oid_is = w.oid_is;
      positive = w.positive;
      type_is = w.type_is;
      handed_out = w.handed_out;
    };
    current = refl;
    fits = rw (h.no_actions, h.no_bytes) done;
    distinct = rw h.no_actions tt;
    untouched = λ j n. refl;
    logged_le = λ j n. ground (arith, h.no_actions);
    indexed_le = λ j i e. ground (arith, h.no_indices);
    indexed = λ j i p e. ground (arith, h.no_indices);
    unlogged = λ j n. ground (arith, h.no_actions);
  }

  cleanup_lem :
      (c : Session Obj) (t : ℕ) (outer : List ℕ)
      → c.store.transactions ≡ t ∷ outer
      → cleanup c
        ≡ some (record { store = record c.store { transactions = outer }; data_ = emptied c.data_ })
  unfolding cleanup
  cleanup_lem c t outer e = rw (e, cleanup)

  -- `rollback` of a logged session gives the map of the store at `begin`, pops the transaction and
  -- empties it.
  pub rollback_logged :
      (s : Serializer Obj) (before : Map Obj) (outer : List ℕ) (c : Session Obj)
      → IsLogged s before outer c
      → rollback s c
        ≡ some (record {
          store = record c.store { object_map = before; transactions = outer };
          data_ = emptied c.data_;
        })
  unfolding rollback
  rollback_logged s before outer c v =
      let e : is_current c.data_.id c.store.transactions ≡ true =
        simp v.current (ground (arith, ==_iff c.data_.id c.data_.id)) in
      rw
        (
          e,
          restore_all_lem s c.store.prototypes before c.data_.actions c.store refl v.fits v.distinct
              v.untouched,
        )
        (cleanup_lem (record c { store = record c.store { object_map = before } }) c.data_.id outer
          v.current)

  -- `commit` keeps the store as it is, where the observer throws nothing.
  pub commit_logged :
      (s : Serializer Obj) (before : Map Obj) (outer : List ℕ)
      (on_commit : List (Action Obj) → Option (List (Action Obj))) (c : Session Obj)
      → IsLogged s before outer c
      → commit on_commit c ≡ (
          on_commit c.data_.actions >>= λ _.
          some
            (record { store = record c.store { transactions = outer }; data_ = emptied c.data_ }))
  unfolding commit
  commit_logged s before outer on_commit c v = elim (Option-cases (on_commit c.data_.actions)) [
    | inl e ↦ rw e refl
    | inr (actions, e) ↦ rw e (
        cleanup_lem (record c { data_ = record c.data_ { actions = actions } }) c.data_.id outer
          v.current)
  ]

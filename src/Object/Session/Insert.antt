-- ===== src/Object/Session/Insert.antt =====
-- `insert` keeps the invariant: the new id joins the first insert action of its type, or a new one.
use oos.Prelude.{
  ℕ, ◌+◌, ◌<◌, ◌≡◌, refl, sym, ◌∙◌, ap, true, false, List, [], ◌∷◌, ◌++◌, none, some, length, ◌==◌,
  ==_iff, if◌then◌else◌, arith, Bool-cases, Option-cases, inl, inr, append-nil, length-append,
}
use mathlib.Core.Path.{subst}
use oos.Prelude.Bytes.{Bytes}
use oos.Object.Store.{Proxy, ObjectStore, attached, write_at}
use oos.Object.Transaction.{
  Serializer, Action, insert_action, find_index, insert_index, insert_loop, action_insert,
  on_insert,
}
use oos.Object.Session.{Session, insert, execute}
use oos.Object.Session.Log.{
  contains, contains-append, AllDistinct-append, Map, ids, AllNew-frame, Fits, done, inserted,
}
use oos.Object.Session.Splice.{
  splice, Covers, contains_get, contains-splice, AllDistinct-splice, Fits-splice, get_elem?-splice,
  lt_of_get,
}
use oos.Object.Session.Inserter.{Takes, insert_loop-Takes}
use oos.Object.Session.Invariant.{IsStore, IsLogged}
use oos.Object.Session.Keep.{notify_on, find_index-insert_index, IsStore-write, IsLogged-append}
use oos.Object.Session.Modify.{Keeps}
use oos.Object.Session.Grow.{
  length-splice, AllDistinct-get, AllNew-concat, on_insert_lem, action_insert-none,
  action_insert-some,
}

module _ {Obj : Type 0} (s : Serializer Obj) (before : Map Obj) (outer : List ℕ) (c : Session Obj)
    (v : IsLogged s before outer c) (type : Bytes) (o : Obj)
    (known : attached type c.store.prototypes ≡ true) where
  abbrev id : ℕ
  id = c.store.sequence + 1

  abbrev proxy : Proxy Obj
  proxy = record { oid = c.store.sequence + 1; type = type; obj = o }

  abbrev store_after : ObjectStore Obj
  store_after = record c.store {
    object_map = write_at id (some proxy) c.store.object_map;
    sequence = id;
  }

  IsStore-after : IsStore store_after
  IsStore-after =
      IsStore-write c.store id id proxy v.wf refl (omega arith) known (omega arith) (omega arith)

  not_indexed : find_index id c.data_.id_action_index_map ≡ none
  not_indexed = elim (Option-cases (find_index id c.data_.id_action_index_map)) [
    | inl n ↦ n
    | inr (i, n) ↦ absurd (omega (arith, v.indexed_le id i n))
  ]

  not_logged : contains id (ids c.data_.actions) ≡ false
  not_logged = v.unlogged id not_indexed

  was_none : before id ≡ none
  was_none = elim (Option-cases (c.store.object_map id)) [
    | inl n ↦ sym (v.untouched id not_logged) ∙ n
    | inr (p, n) ↦ absurd (omega (arith, v.wf.handed_out id p n))
  ]

  is_here : store_after.object_map id ≡ some proxy
  is_here = ground (arith, ==_iff id id)

  execute-insert :
      (actions : List (Action Obj)) (i : ℕ)
      → action_insert proxy c.data_.actions ≡ (actions, i)
      → i < length actions
      → execute s (insert type o) c
        ≡ some (record {
          store = store_after;
          data_ = record c.data_ {
            actions = actions;
            id_action_index_map = insert_index id i c.data_.id_action_index_map;
          };
        })
  unfolding execute
  execute-insert actions i e lt = rw (
    known,
    notify_on (on_insert proxy) c.store.transactions c.data_.id outer c.data_ v.current,
    on_insert_lem proxy c.data_ actions i not_indexed e lt,
  )

  insert_new : insert_loop type id 0 c.data_.actions ≡ none → Keeps s before outer (insert type o) c
  insert_new n = record {
    after = record {
      store = store_after;
      data_ = record c.data_ {
        actions = c.data_.actions ++ insert_action type (id ∷ []) ∷ [];
        id_action_index_map = insert_index id (length c.data_.actions) c.data_.id_action_index_map;
      };
    };
    returns =
        execute-insert (c.data_.actions ++ insert_action type (id ∷ []) ∷ [])
          (length c.data_.actions) (action_insert-none proxy c.data_.actions n)
          (omega (arith, length-append {0} c.data_.actions (insert_action type (id ∷ []) ∷ [])));
    logged =
        subst
          (λ (b : Bytes). IsLogged s before outer (record {
            store = store_after;
            data_ = record c.data_ {
              actions = c.data_.actions ++ insert_action type (id ∷ []) ∷ [];
              id_action_index_map =
                  insert_index id (length c.data_.actions) c.data_.id_action_index_map;
              object_buffer = b;
            };
          }))
          (append-nil c.data_.object_buffer)
          (IsLogged-append s before outer c store_after (insert_action type (id ∷ [])) id [] v
            IsStore-after refl refl (omega arith) (omega arith) (λ j h. rw h refl) not_indexed refl
            (inserted (was_none, (proxy, is_here), tt) done));
  }

  module _ (t : Takes type id 0 c.data_.actions) where
    abbrev grown : Action Obj
    grown = insert_action t.type_of (t.members ++ id ∷ [])

    abbrev actions_after : List (Action Obj)
    actions_after = splice t.index (grown ∷ []) c.data_.actions

    contains-grown :
        (j : ℕ) → contains j (ids (grown ∷ [])) ≡ (if contains j t.members then true else j == id)
    contains-grown j =
        rw (append-nil (t.members ++ id ∷ []))
          (ground (arith, contains-append j t.members (id ∷ [])))

    member :
        (j : ℕ)
        → contains j (ids actions_after)
          ≡ (if contains j (ids c.data_.actions) then true else j == id)
    member j = ground (
      arith,
      contains-grown j,
      contains_get c.data_.actions t.index j (insert_action t.type_of t.members) t.there,
      contains-splice c.data_.actions (grown ∷ []) t.index j (insert_action t.type_of t.members)
          t.there v.distinct,
    )

    swap_grown :
        (tail : List (Action Obj)) (b : Bytes)
        → ((d : Bytes)
            → Fits s c.store.prototypes before c.store.object_map tail d
            → Fits s c.store.prototypes before store_after.object_map tail d)
        → Fits s c.store.prototypes before c.store.object_map
            (insert_action t.type_of t.members ∷ tail)
            b
        → Fits s c.store.prototypes before store_after.object_map (grown ∷ tail) b
    swap_grown tail b frame (inserted w f) =
        inserted
          (AllNew-concat before store_after.object_map t.members id proxy
            (AllNew-frame before c.store.object_map store_after.object_map t.members
              (λ j m. ground (
                arith,
                not_logged,
                ==_iff j id,
                contains_get c.data_.actions t.index j (insert_action t.type_of t.members) t.there,
              ))
              w)
            was_none is_here)
          (frame b f)

    fits_grown :
        Fits s c.store.prototypes before store_after.object_map actions_after c.data_.object_buffer
    fits_grown =
        Fits-splice s c.store.prototypes before c.store.object_map store_after.object_map
          (grown ∷ []) (insert_action t.type_of t.members) swap_grown c.data_.actions t.index
          t.there v.distinct (λ j m n. ground (arith, not_logged, ==_iff j id)) v.fits

    Covers-old : (i j : ℕ) → Covers i j c.data_.actions → Covers i j actions_after
    Covers-old i j k =
        let lt = lt_of_get c.data_.actions t.index t.there in
        elim (Bool-cases (i == t.index)) [
          | inl same ↦ record {
            action = grown;
            at = get_elem?-splice c.data_.actions grown t.index i lt ∙ rw same;
            about =
                let e : k.action ≡ insert_action t.type_of t.members =
                  cc ((==_iff i t.index).0 same, k.at, t.there) in
                let m : contains j t.members ≡ true = rw e at k.about in
                ground (arith, m, contains-append j t.members (id ∷ []));
          }
          | inr other ↦ record {
            action = k.action;
            at = get_elem?-splice c.data_.actions grown t.index i lt ∙ rw other k.at;
            about = k.about;
          }
        ]

    insert_old : Keeps s before outer (insert type o) c
    insert_old =
        let actions = c.data_.actions in
        let lt = lt_of_get actions t.index t.there in
        let index : (j : ℕ)
            → find_index j (insert_index id t.index c.data_.id_action_index_map)
              ≡ (if j == id then some t.index else find_index j c.data_.id_action_index_map) =
          λ j. find_index-insert_index j id t.index c.data_.id_action_index_map not_indexed in
        record {
          after = record {
            store = store_after;
            data_ = record c.data_ {
              actions = actions_after;
              id_action_index_map = insert_index id t.index c.data_.id_action_index_map;
            };
          };
          returns =
              execute-insert actions_after t.index
                (action_insert-some proxy actions (actions_after, t.index)
                  (t.returns ∙ ap (λ (k : ℕ). some (actions_after, k)) (omega arith)))
                (omega (arith, length-splice actions t.index grown, lt));
          logged = record {
            wf = IsStore-after;
            current = v.current;
            fits = fits_grown;
            distinct =
                AllDistinct-splice actions (grown ∷ []) t.index (insert_action t.type_of t.members)
                  t.there v.distinct
                  (rw (append-nil (t.members ++ id ∷ [])) (
                    AllDistinct-append t.members (id ∷ [])
                      (AllDistinct-get actions t.index (insert_action t.type_of t.members) t.there
                        v.distinct)
                      (refl, tt)
                      λ j m. ground (
                        arith,
                        not_logged,
                        ==_iff j id,
                        contains_get actions t.index j (insert_action t.type_of t.members) t.there,
                      )))
                  λ j m n. ground (arith, contains-grown j, not_logged, ==_iff j id);
            untouched = λ j h. ground (arith, member j, v.untouched j);
            logged_le = λ j h. ground (arith, member j, v.logged_le j);
            indexed_le = λ j i h. ground (arith, index j, v.indexed_le j i, ==_iff j id);
            indexed = λ j i p h e. elim (Bool-cases (j == id)) [
              | inl same ↦ record {
                action = grown;
                at =
                    let q : (i == t.index) ≡ true = ground (arith, index j) in
                    get_elem?-splice actions grown t.index i lt ∙ rw q;
                about = ground (arith, contains-append j t.members (id ∷ []));
              }
              | inr other ↦
                  Covers-old i j (v.indexed j i p (ground (arith, index j)) (rw other at e))
            ];
            unlogged = λ j h. ground (arith, index j, member j, v.unlogged j);
          };
        }

-- `insert` of an object of an attached type succeeds and keeps the invariant.
pub insert-IsLogged :
    {Obj : Type 0} (s : Serializer Obj) (before : Map Obj) (outer : List ℕ) (c : Session Obj)
    (type : Bytes) (o : Obj)
    → IsLogged s before outer c
    → attached type c.store.prototypes ≡ true
    → Keeps s before outer (insert type o) c
insert-IsLogged s before outer c type o v known =
    elim (insert_loop-Takes type (c.store.sequence + 1) 0 c.data_.actions) [
      | inl n ↦ insert_new s before outer c v type o known n
      | inr t ↦ insert_old s before outer c v type o known t
    ]

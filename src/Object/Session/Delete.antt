-- ===== src/Object/Session/Delete.antt =====
-- The cases of `remove` by the action that the log has for the proxy.
use oos.Prelude.{
  ℕ, suc, ◌≡◌, refl, sym, ◌∙◌, ap, true, false, List, [], ◌∷◌, none, some, length, get_elem?, ◌==◌,
  ==_iff, if◌then◌else◌, arith, Bool-cases, Option-cases, List-cases, inl, inr, append-nil,
}
use mathlib.Core.Path.{subst, ap₂}
use oos.Prelude.Bytes.{Bytes}
use oos.Object.Store.{Proxy, write_at}
use oos.Object.Transaction.{
  Serializer, Action, insert_action, update_action, delete_action, find_index, erase_id, visit,
}
use oos.Object.Session.{Session, remove}
use oos.Object.Session.Log.{
  contains, AllDistinct, Map, ids_of, ids, AllNew-before, Fits, inserted, updated, deleted,
}
use oos.Object.Session.Splice.{
  splice, Covers, Fits-splice, get_elem?-splice, get_elem?-splice_last, lt_of_get,
}
use oos.Object.Session.Invariant.{IsLogged}
use oos.Object.Session.Modify.{Keeps}
use oos.Object.Session.Grow.{AllDistinct-get}
use oos.Object.Session.Erase.{
  contains-erase_id, AllDistinct-erase_id, AllNew-erase_id, Fits_get_delete, Fits_get_insert,
}
use oos.Object.Session.Remove.{remove_unlogged, remove_logged}

module _ {Obj : Type 0} (s : Serializer Obj) (before : Map Obj) (outer : List ℕ) (c : Session Obj)
    (v : IsLogged s before outer c) (p : Proxy Obj) (here : c.store.object_map p.oid ≡ some p)
    (i : ℕ) (found : find_index p.oid c.data_.id_action_index_map ≡ some i) where
  abbrev types : List Bytes
  types = c.store.prototypes

  abbrev after : Map Obj
  after = write_at p.oid none c.store.object_map

  -- An action of one list of ids replaced by one other: the others keep their places.
  Covers-one :
      (a b : Action Obj)
      → get_elem? c.data_.actions i ≡ some a
      → ((j : ℕ)
          → (j == p.oid) ≡ false
          → contains j (ids_of a) ≡ true
          → contains j (ids_of b) ≡ true)
      → (n j : ℕ) → (j == p.oid) ≡ false
      → Covers n j c.data_.actions
      → Covers n j (splice i (b ∷ []) c.data_.actions)
  Covers-one a b there stay n j q k =
      let lt = lt_of_get c.data_.actions i there in
      let g = get_elem?-splice c.data_.actions b i n lt in
      elim (Bool-cases (n == i)) [
        | inl same ↦
            let e : k.action ≡ a = cc ((==_iff n i).0 same, k.at, there) in
            record { action = b; at = g ∙ rw same; about = stay j q (rw e at k.about) }
        | inr other ↦ record { action = k.action; at = g ∙ rw other k.at; about = k.about }
      ]

  -- Only ids of the replaced action change.
  agree :
      (a : Action Obj)
      → contains p.oid (ids_of a) ≡ true
      → (j : ℕ) → contains j (ids c.data_.actions) ≡ true
      → contains j (ids_of a) ≡ false
      → c.store.object_map j ≡ after j
  agree a m j h n = ground (arith, ==_iff j p.oid)

  remove_updated :
      get_elem? c.data_.actions i ≡ some (update_action p.oid)
      → Keeps s before outer (remove p.oid) c
  remove_updated there =
      remove_logged s before outer c v p here i (update_action p.oid) (delete_action p.oid p ∷ [])
        found there (unfold visit in ground (arith, ==_iff p.oid p.oid))
        (ground (arith, ==_iff p.oid p.oid)) (λ j m. m) (λ j q m. m)
        (λ m. ground (arith, ==_iff p.oid p.oid)) (refl, tt)
        (Covers-one (update_action p.oid) (delete_action p.oid p) there (λ j q m. m))
        (Fits-splice s types before c.store.object_map after (delete_action p.oid p ∷ [])
          (update_action p.oid) swap c.data_.actions i there v.distinct
          (agree (update_action p.oid) (ground (arith, ==_iff p.oid p.oid))) v.fits)
    where
      swap :
          (tail : List (Action Obj)) (b : Bytes)
          → ((d : Bytes)
              → Fits s types before c.store.object_map tail d
              → Fits s types before after tail d)
          → Fits s types before c.store.object_map (update_action p.oid ∷ tail) b
          → Fits s types before after (delete_action p.oid p ∷ tail) b
      swap tail b frame (updated old new rest x n e w f) =
          let same : new ≡ p = cc in
          deleted old rest x (ground (arith, ==_iff p.oid p.oid)) (rw same at e) refl
            (v.wf.positive p.oid p here) (v.wf.type_is p.oid p here) w (frame rest f)

  module _ (t : Bytes) (ks : List ℕ)
      (there : get_elem? c.data_.actions i ≡ some (insert_action t ks))
      (about : contains p.oid ks ≡ true) where
    distinct : AllDistinct ks
    distinct = AllDistinct-get c.data_.actions i (insert_action t ks) there v.distinct

    was_none : before p.oid ≡ none
    was_none =
        AllNew-before before c.store.object_map ks p.oid
          (Fits_get_insert s types before c.store.object_map c.data_.actions i t ks v.fits there)
          about

    erased :
        (k : ℕ) (ls : List ℕ)
        → erase_id p.oid ks ≡ k ∷ ls
        → (j : ℕ) → contains j (k ∷ ls) ≡ (if j == p.oid then false else contains j ks)
    erased k ls e j = rw e at (contains-erase_id j p.oid ks distinct)

    swap_emptied :
        (tail : List (Action Obj)) (b : Bytes)
        → ((d : Bytes)
            → Fits s types before c.store.object_map tail d
            → Fits s types before after tail d)
        → Fits s types before c.store.object_map (insert_action t ks ∷ tail) b
        → Fits s types before after tail b
    swap_emptied tail b frame (inserted w f) = frame b f

    swap_shrunk :
        (k : ℕ) (ls : List ℕ)
        → erase_id p.oid ks ≡ k ∷ ls
        → (tail : List (Action Obj)) (b : Bytes)
        → ((d : Bytes)
            → Fits s types before c.store.object_map tail d
            → Fits s types before after tail d)
        → Fits s types before c.store.object_map (insert_action t ks ∷ tail) b
        → Fits s types before after (insert_action t (k ∷ ls) ∷ tail) b
    swap_shrunk k ls e tail b frame (inserted w f) =
        inserted (rw e at (AllNew-erase_id before c.store.object_map p.oid ks distinct w))
          (frame b f)

    -- Nothing stands behind the erased action, and what it named is gone.
    Covers-last :
        erase_id p.oid ks ≡ []
        → suc i ≡ length c.data_.actions
        → (n j : ℕ) → (j == p.oid) ≡ false
        → Covers n j c.data_.actions
        → Covers n j (splice i [] c.data_.actions)
    Covers-last e last n j q k = elim (Bool-cases (n == i)) [
      | inl same ↦
          let d : k.action ≡ insert_action t ks = cc ((==_iff n i).0 same, k.at, there) in
          let m : contains j ks ≡ true = rw d at k.about in
          absurd (ground (arith, contains-erase_id j p.oid ks distinct, e))
      | inr other ↦
          let lt = lt_of_get c.data_.actions n k.at in
          record {
            action = k.action;
            at = get_elem?-splice_last c.data_.actions i n last (ground arith) ∙ k.at;
            about = k.about;
          }
    ]

    remove_emptied :
        erase_id p.oid ks ≡ []
        → suc i ≡ length c.data_.actions
        → Keeps s before outer (remove p.oid) c
    remove_emptied e last =
        remove_logged s before outer c v p here i (insert_action t ks) [] found there
          (unfold visit in rw (e, visit)) about (λ j m. cc)
          (λ j q m. ground (arith, contains-erase_id j p.oid ks distinct, e)) (λ m. was_none) tt
          (Covers-last e last)
          (Fits-splice s types before c.store.object_map after [] (insert_action t ks) swap_emptied
            c.data_.actions i there v.distinct (agree (insert_action t ks) about) v.fits)

    remove_shrunk :
        (k : ℕ) (ls : List ℕ) → erase_id p.oid ks ≡ k ∷ ls → Keeps s before outer (remove p.oid) c
    remove_shrunk k ls e =
        remove_logged s before outer c v p here i (insert_action t ks)
          (insert_action t (k ∷ ls) ∷ []) found there (unfold visit in rw (e, visit)) about
          (λ j m. ground (arith, erased k ls e j, ap (contains j) (append-nil ls)))
          (λ j q m. ground (arith, erased k ls e j, ap (contains j) (append-nil ls)))
          (λ m. was_none) (rw (append-nil ls) (rw e at (AllDistinct-erase_id p.oid ks distinct)))
          (Covers-one (insert_action t ks) (insert_action t (k ∷ ls)) there
            (λ j q m. ground (arith, erased k ls e j)))
          (Fits-splice s types before c.store.object_map after (insert_action t (k ∷ ls) ∷ [])
            (insert_action t ks) (λ tail b frame f. swap_shrunk k ls e tail b frame f)
            c.data_.actions i there v.distinct (agree (insert_action t ks) about) v.fits)

-- A removal that would erase an insert action from inside the log: the others behind it move up,
-- and the indices that the transaction keeps for them do not.
abbrev pub KeepsIndices : {Obj : Type 0} → ℕ → Session Obj → Type 0
KeepsIndices id c =
    (i : ℕ) (t : Bytes)
    → find_index id c.data_.id_action_index_map ≡ some i
    → get_elem? c.data_.actions i ≡ some (insert_action t (id ∷ []))
    → suc i ≡ length c.data_.actions

erase_id_nil : (id : ℕ) (ks : List ℕ) → contains id ks ≡ true → erase_id id ks ≡ [] → ks ≡ id ∷ []
unfolding erase_id
erase_id_nil id [] c e = cc
erase_id_nil id (k ∷ ks) c e = elim (Bool-cases (k == id)) [
  | inl q ↦ ap₂ ◌∷◌ ((==_iff k id).0 q) (rw q at e)
  | inr q ↦ absurd (cc (rw q at e))
]

module _ {Obj : Type 0} (s : Serializer Obj) (before : Map Obj) (outer : List ℕ) (c : Session Obj)
    (v : IsLogged s before outer c) (p : Proxy Obj) (here : c.store.object_map p.oid ≡ some p)
    (keeps : KeepsIndices p.oid c) where
  remove_covered :
      (i : ℕ) (a : Action Obj)
      → find_index p.oid c.data_.id_action_index_map ≡ some i
      → get_elem? c.data_.actions i ≡ some a
      → contains p.oid (ids_of a) ≡ true
      → Keeps s before outer (remove p.oid) c
  remove_covered i (insert_action t ks) found there about = elim (List-cases (erase_id p.oid ks)) [
    | inl e ↦
        let one = erase_id_nil p.oid ks about e in
        remove_emptied s before outer c v p here i found t ks there about e
          (keeps i t found (there ∙ ap (λ (l : List ℕ). some (insert_action t l)) one))
    | inr (k, ls, e) ↦ remove_shrunk s before outer c v p here i found t ks there about k ls e
  ]
  remove_covered i (update_action k) found there about =
      let e : k ≡ p.oid = ground (arith, ==_iff p.oid k) in
      remove_updated s before outer c v p here i found
        (there ∙ ap (λ (n : ℕ). some (update_action n)) e)
  remove_covered i (delete_action k q) found there about =
      let e : k ≡ p.oid = ground (arith, ==_iff p.oid k) in
      let n =
        Fits_get_delete s c.store.prototypes before c.store.object_map c.data_.actions i k q v.fits
          there in
      absurd (cc (ap c.store.object_map e))

  remove_any : Keeps s before outer (remove p.oid) c
  remove_any = elim (Option-cases (find_index p.oid c.data_.id_action_index_map)) [
    | inl n ↦ remove_unlogged s before outer c v p here n
    | inr (i, n) ↦ let k = v.indexed p.oid i p n here in remove_covered i k.action n k.at k.about
  ]

-- `remove` of a proxy of the store succeeds and keeps the invariant, where it keeps the indices.
pub remove-IsLogged :
    {Obj : Type 0} (s : Serializer Obj) (before : Map Obj) (outer : List ℕ) (c : Session Obj)
    (id : ℕ) (p : Proxy Obj)
    → IsLogged s before outer c
    → c.store.object_map id ≡ some p
    → KeepsIndices id c
    → Keeps s before outer (remove id) c
remove-IsLogged s before outer c id p v here keeps =
    let e = v.wf.oid_is id p here in
    subst (λ (k : ℕ). Keeps s before outer (remove k) c) e
      (remove_any s before outer c v p (ap c.store.object_map e ∙ here)
        (subst (λ (k : ℕ). KeepsIndices k c) (sym e) keeps))

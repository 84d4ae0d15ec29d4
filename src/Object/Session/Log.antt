-- ===== src/Object/Session/Log.antt =====
-- What a log says about the store before the transaction (`before`) and the store now (`now`): the
-- ids that it names, and that the buffer holds the old objects in the order of the actions.
use oos.Prelude.{
  ℕ, ◌<◌, ◌≡◌, refl, sym, ◌∙◌, ap, Bool, true, false, List, [], ◌∷◌, ◌++◌, append_assoc, Option,
  none, some, ◌==◌, ==_iff, if◌then◌else◌, arith, Bool-cases, inl, inr,
}
use oos.Prelude.Bytes.{Bytes}
use oos.Object.Store.{Proxy, attached}
use oos.Object.Transaction.{Serializer, Action, insert_action, update_action, delete_action}

abbrev pub contains : ℕ → List ℕ → Bool
contains j [] = false
contains j (k ∷ ks) = if j == k then true else contains j ks

abbrev pub AllDistinct : List ℕ → Type 0
AllDistinct [] = Unit
AllDistinct (k ∷ ks) = (contains k ks ≡ false) × AllDistinct ks

pub contains-append :
    (j : ℕ) (ks ls : List ℕ)
    → contains j (ks ++ ls) ≡ (if contains j ks then true else contains j ls)
contains-append j [] ls = refl
contains-append j (k ∷ ks) ls = ground (arith, contains-append j ks ls)

pub AllDistinct-split :
    (ks ls : List ℕ)
    → AllDistinct (ks ++ ls)
    → AllDistinct ks × AllDistinct ls × ((j : ℕ) → contains j ks ≡ true → contains j ls ≡ false)
AllDistinct-split [] ls d = (tt, d, λ j h. cc)
AllDistinct-split (k ∷ ks) ls d =
    let r = AllDistinct-split ks ls d.1 in
    (
      (ground (arith, contains-append k ks ls), r.0),
      r.1,
      λ j h. ground (arith, contains-append k ks ls, r.2 j, ==_iff j k),
    )

pub AllDistinct-append :
    (ks ls : List ℕ)
    → AllDistinct ks
    → AllDistinct ls
    → ((j : ℕ) → contains j ks ≡ true → contains j ls ≡ false)
    → AllDistinct (ks ++ ls)
AllDistinct-append [] ls d e h = e
AllDistinct-append (k ∷ ks) ls d e h = (
  ground (arith, contains-append k ks ls, h k),
  AllDistinct-append ks ls d.1 e λ j m. ground (arith, h j),
)

abbrev pub Map : Type 0 → Type 0
Map Obj = ℕ → Option (Proxy Obj)

module _ {Obj : Type 0} where
  -- The ids that an action, and a log, is about.
  abbrev pub ids_of : Action Obj → List ℕ
  ids_of (insert_action t ids) = ids
  ids_of (update_action id) = id ∷ []
  ids_of (delete_action id p) = id ∷ []

  abbrev pub ids : List (Action Obj) → List ℕ
  ids [] = []
  ids (a ∷ actions) = ids_of a ++ ids actions

  pub ids-append : (xs ys : List (Action Obj)) → ids (xs ++ ys) ≡ ids xs ++ ids ys
  ids-append [] ys = refl
  ids-append (a ∷ xs) ys = rw (ids-append xs ys) (sym (append_assoc (ids_of a) (ids xs) (ids ys)))

  -- The ids are new: not in the store before, and in it now.
  abbrev pub AllNew : Map Obj → Map Obj → List ℕ → Type 0
  AllNew before now [] = Unit
  AllNew before now (k ∷ ks) =
      (before k ≡ none) × ((p : Proxy Obj) × (now k ≡ some p)) × AllNew before now ks

  module _ (s : Serializer Obj) (types : List Bytes) (before now : Map Obj) where
    pub data Fits : List (Action Obj) → Bytes → Type 0 where
      done : Fits [] []
      inserted :
          {t : Bytes} {ks : List ℕ} {actions : List (Action Obj)} {buffer : Bytes}
          → AllNew before now ks
          → Fits actions buffer
          → Fits (insert_action t ks ∷ actions) buffer
      updated :
          {id : ℕ} {actions : List (Action Obj)} {buffer : Bytes} (old new : Proxy Obj)
          (rest : Bytes)
          → before id ≡ some old
          → now id ≡ some new
          → record new { obj = old.obj } ≡ old
          → buffer ≡ s.write old.obj ++ rest
          → Fits actions rest
          → Fits (update_action id ∷ actions) buffer
      deleted :
          {id : ℕ} {p : Proxy Obj} {actions : List (Action Obj)} {buffer : Bytes} (old : Proxy Obj)
          (rest : Bytes)
          → before id ≡ some old
          → now id ≡ none
          → record p { obj = old.obj } ≡ old
          → p.oid ≡ id
          → 0 < id
          → attached p.type types ≡ true
          → buffer ≡ s.write old.obj ++ rest
          → Fits actions rest
          → Fits (delete_action id p ∷ actions) buffer

  pub AllNew-before :
      (before now : Map Obj) (ks : List ℕ) (j : ℕ)
      → AllNew before now ks
      → contains j ks ≡ true
      → before j ≡ none
  AllNew-before before now [] j v c = cc
  AllNew-before before now (k ∷ ks) j v c = elim (Bool-cases (j == k)) [
    | inl e ↦ ap before ((==_iff j k).0 e) ∙ v.0
    | inr e ↦ AllNew-before before now ks j v.2 (rw e at c)
  ]

  -- A log fits as well where the map differs only at ids that the log does not name.
  pub AllNew-frame :
      (before now other : Map Obj) (ks : List ℕ)
      → ((j : ℕ) → contains j ks ≡ true → now j ≡ other j)
      → AllNew before now ks
      → AllNew before other ks
  AllNew-frame before now other [] h v = tt
  AllNew-frame before now other (k ∷ ks) h v = (
    v.0,
    (v.1.0, sym (h k (ground arith)) ∙ v.1.1),
    AllNew-frame before now other ks (λ j c. h j (ground arith)) v.2,
  )

  pub Fits_frame :
      (s : Serializer Obj) (types : List Bytes) {before now other : Map Obj}
      (actions : List (Action Obj)) {buffer : Bytes}
      → ((j : ℕ) → contains j (ids actions) ≡ true → now j ≡ other j)
      → Fits s types before now actions buffer
      → Fits s types before other actions buffer
  Fits_frame s types [] h done = done
  Fits_frame s types {before} {now} {other} (insert_action t ks ∷ actions) h (inserted v f) =
      inserted
        (AllNew-frame before now other ks
          (λ j c. h j (ground (arith, contains-append j ks (ids actions)))) v)
        (Fits_frame s types actions
          (λ j c. h j (ground (arith, contains-append j ks (ids actions)))) f)
  Fits_frame s types (update_action id ∷ actions) h (updated old new rest b n e w f) =
      updated old new rest b (sym (h id (ground arith)) ∙ n) e w
        (Fits_frame s types actions (λ j c. h j (ground arith)) f)
  Fits_frame s types (delete_action id p ∷ actions) h (deleted old rest b n e o z a w f) =
      deleted old rest b (sym (h id (ground arith)) ∙ n) e o z a w
        (Fits_frame s types actions (λ j c. h j (ground arith)) f)

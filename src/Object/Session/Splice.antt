-- ===== src/Object/Session/Splice.antt =====
-- One action of a log replaced by others: what `action_inserter` and `action_remover` do.
use oos.Prelude.{
  ℕ, zero, suc, ◌<◌, ◌≡◌, refl, sym, ◌∙◌, true, false, List, [], ◌∷◌, ◌++◌, some, length, get_elem?,
  ◌==◌, if◌then◌else◌, arith, append_assoc,
}
use mathlib.Core.Path.{subst}
use oos.Prelude.Bytes.{Bytes}
use oos.Object.Transaction.{Serializer, Action, insert_action, update_action, delete_action}
use oos.Object.Session.Log.{
  contains, AllDistinct, contains-append, AllDistinct-split, AllDistinct-append, Map, ids_of, ids,
  ids-append, Fits, done, inserted, updated, deleted, AllNew-frame, Fits_frame,
}

module _ {Obj : Type 0} where
  -- The list with the action at `i` replaced.
  abbrev pub splice : ℕ → List (Action Obj) → List (Action Obj) → List (Action Obj)
  splice i bs [] = []
  splice zero bs (a ∷ actions) = bs ++ actions
  splice (suc i) bs (a ∷ actions) = a ∷ splice i bs actions

  -- The action at `i` is about `j`.
  pub record Covers (i j : ℕ) (actions : List (Action Obj)) : Type 0 where
    pub action : Action Obj
    pub at : get_elem? actions i ≡ some action
    pub about : contains j (ids_of action) ≡ true

  pub contains_get :
      (actions : List (Action Obj)) (i j : ℕ) (a : Action Obj)
      → get_elem? actions i ≡ some a
      → contains j (ids_of a) ≡ true
      → contains j (ids actions) ≡ true
  contains_get [] i j a g c = cc
  contains_get (x ∷ actions) zero j a g c =
      ground (arith, contains-append j (ids_of x) (ids actions))
  contains_get (x ∷ actions) (suc i) j a g c =
      ground (arith, contains-append j (ids_of x) (ids actions), contains_get actions i j a g c)

  pub contains-splice :
      (actions bs : List (Action Obj)) (i j : ℕ) (a : Action Obj)
      → get_elem? actions i ≡ some a
      → AllDistinct (ids actions)
      → contains j (ids (splice i bs actions)) ≡ (
          if contains j (ids bs)
          then true
          else if contains j (ids_of a)
          then false
          else contains j (ids actions))
  contains-splice [] bs i j a g d = cc
  contains-splice (x ∷ actions) bs zero j a g d =
      let r = AllDistinct-split (ids_of x) (ids actions) d in
      rw (ids-append bs actions) (
        ground (
          arith,
          contains-append j (ids bs) (ids actions),
          contains-append j (ids_of x) (ids actions),
          r.2 j,
        ))
  contains-splice (x ∷ actions) bs (suc i) j a g d =
      let r = AllDistinct-split (ids_of x) (ids actions) d in
      ground (
        arith,
        contains-append j (ids_of x) (ids (splice i bs actions)),
        contains-append j (ids_of x) (ids actions),
        contains_get actions i j a g,
        contains-splice actions bs i j a g r.1,
        r.2 j,
      )

  pub AllDistinct-splice :
      (actions bs : List (Action Obj)) (i : ℕ) (a : Action Obj)
      → get_elem? actions i ≡ some a
      → AllDistinct (ids actions)
      → AllDistinct (ids bs)
      → ((j : ℕ)
          → contains j (ids bs) ≡ true
          → contains j (ids_of a) ≡ false
          → contains j (ids actions) ≡ false)
      → AllDistinct (ids (splice i bs actions))
  AllDistinct-splice [] bs i a g d e h = tt
  AllDistinct-splice (x ∷ actions) bs zero a g d e h =
      let r = AllDistinct-split (ids_of x) (ids actions) d in
      rw (ids-append bs actions) (
        AllDistinct-append (ids bs) (ids actions) e r.1
          λ j c. ground (arith, h j, r.2 j, contains-append j (ids_of x) (ids actions)))
  AllDistinct-splice (x ∷ actions) bs (suc i) a g d e h =
      let r = AllDistinct-split (ids_of x) (ids actions) d in
      AllDistinct-append (ids_of x) (ids (splice i bs actions)) r.0
        (AllDistinct-splice actions bs i a g r.1 e
          λ j c n. ground (arith, h j, contains-append j (ids_of x) (ids actions)))
        λ j c. ground (
          arith,
          h j,
          r.2 j,
          contains-append j (ids_of x) (ids actions),
          contains-splice actions bs i j a g r.1,
          contains_get actions i j a g,
        )

  -- A head that stays keeps its ids where the maps agree outside the replaced action.
  keep_head :
      (now other : Map Obj) (x a : Action Obj) (actions : List (Action Obj)) (i : ℕ)
      → get_elem? actions i ≡ some a
      → AllDistinct (ids_of x ++ ids actions)
      → ((j : ℕ)
          → contains j (ids_of x ++ ids actions) ≡ true
          → contains j (ids_of a) ≡ false
          → now j ≡ other j)
      → (j : ℕ) → contains j (ids_of x) ≡ true
      → now j ≡ other j
  keep_head now other x a actions i g d agree j c =
      let r = AllDistinct-split (ids_of x) (ids actions) d in
      ground (
        arith,
        agree j,
        r.2 j,
        contains-append j (ids_of x) (ids actions),
        contains_get actions i j a g,
      )

  module _ (s : Serializer Obj) (types : List Bytes) (before now other : Map Obj)
      (bs : List (Action Obj)) (a : Action Obj)
      (swap : (tail : List (Action Obj)) (b : Bytes)
        → ((c : Bytes) → Fits s types before now tail c → Fits s types before other tail c)
        → Fits s types before now (a ∷ tail) b
        → Fits s types before other (bs ++ tail) b) where
    -- A log fits after a splice, where the maps differ at ids of the replaced action alone.
    pub Fits-splice :
        (actions : List (Action Obj)) {buffer : Bytes} (i : ℕ)
        → get_elem? actions i ≡ some a
        → AllDistinct (ids actions)
        → ((j : ℕ)
            → contains j (ids actions) ≡ true
            → contains j (ids_of a) ≡ false
            → now j ≡ other j)
        → Fits s types before now actions buffer
        → Fits s types before other (splice i bs actions) buffer
    Fits-splice [] i g d agree f = cc
    Fits-splice (x ∷ actions) {buffer} zero g d agree f =
        let r = AllDistinct-split (ids_of x) (ids actions) d in
        let e : x ≡ a = cc in
        swap actions buffer
          (λ c.
            Fits_frame s types actions (λ j m.
              ground (arith, e, agree j, r.2 j, contains-append j (ids_of x) (ids actions))))
          (subst (λ (y : Action Obj). Fits s types before now (y ∷ actions) buffer) e f)
    Fits-splice (insert_action t ks ∷ actions) (suc i) g d agree (inserted v f) =
        inserted
          (AllNew-frame before now other ks
            (keep_head now other (insert_action t ks) a actions i g d agree) v)
          (Fits-splice actions i g (AllDistinct-split ks (ids actions) d).1
            (λ j m. ground (arith, agree j, contains-append j ks (ids actions))) f)
    Fits-splice (update_action id ∷ actions) (suc i) g d agree (updated old new rest b n e w f) =
        let k = keep_head now other (update_action id) a actions i g d agree id (ground arith) in
        updated old new rest b (sym k ∙ n) e w
          (Fits-splice actions i g d.1 (λ j m. ground (arith, agree j)) f)
    Fits-splice (delete_action id p ∷ actions) (suc i) g d agree
          (deleted old rest b n e o z t w f) =
        let k = keep_head now other (delete_action id p) a actions i g d agree id (ground arith) in
        deleted old rest b (sym k ∙ n) e o z t w
          (Fits-splice actions i g d.1 (λ j m. ground (arith, agree j)) f)

  -- `get_elem?` and the number of actions after a replacement by one action.
  pub get_elem?-splice :
      (actions : List (Action Obj)) (b : Action Obj) (i n : ℕ)
      → i < length actions
      → get_elem? (splice i (b ∷ []) actions) n ≡ (if n == i then some b else get_elem? actions n)
  get_elem?-splice [] b i n h = absurd (omega arith)
  get_elem?-splice (x ∷ actions) b zero zero h = refl
  get_elem?-splice (x ∷ actions) b zero (suc n) h = ground arith
  get_elem?-splice (x ∷ actions) b (suc i) zero h = ground arith
  get_elem?-splice (x ∷ actions) b (suc i) (suc n) h =
      ground (arith, get_elem?-splice actions b i n (omega arith))

  -- After the last action is erased the others stand where they stood.
  pub get_elem?-splice_last :
      (actions : List (Action Obj)) (i n : ℕ)
      → suc i ≡ length actions
      → n < i
      → get_elem? (splice i [] actions) n ≡ get_elem? actions n
  get_elem?-splice_last [] i n e h = refl
  get_elem?-splice_last (x ∷ actions) zero n e h = elim h [ ]
  get_elem?-splice_last (x ∷ actions) (suc i) zero e h = refl
  get_elem?-splice_last (x ∷ actions) (suc i) (suc n) e h =
      get_elem?-splice_last actions i n (omega arith) (omega arith)

  pub lt_of_get :
      (actions : List (Action Obj)) (i : ℕ) {a : Action Obj}
      → get_elem? actions i ≡ some a
      → i < length actions
  lt_of_get [] i g = cc
  lt_of_get (x ∷ actions) zero g = omega arith
  lt_of_get (x ∷ actions) (suc i) g = omega (arith, lt_of_get actions i g)

  pub get_elem?-append :
      (actions bs : List (Action Obj)) (n : ℕ)
      → n < length actions
      → get_elem? (actions ++ bs) n ≡ get_elem? actions n
  get_elem?-append [] bs n h = absurd (omega arith)
  get_elem?-append (x ∷ actions) bs zero h = refl
  get_elem?-append (x ∷ actions) bs (suc n) h = get_elem?-append actions bs n (omega arith)

  pub get_elem?-concat :
      (actions : List (Action Obj)) (b : Action Obj)
      → get_elem? (actions ++ b ∷ []) (length actions) ≡ some b
  get_elem?-concat [] b = refl
  get_elem?-concat (x ∷ actions) b = get_elem?-concat actions b

  -- A log and one more action behind it.
  pub Fits-append :
      (s : Serializer Obj) (types : List Bytes) (before now : Map Obj)
      (actions bs : List (Action Obj)) {buffer : Bytes} (more : Bytes)
      → Fits s types before now actions buffer
      → Fits s types before now bs more
      → Fits s types before now (actions ++ bs) (buffer ++ more)
  Fits-append s types before now [] bs more done g = g
  Fits-append s types before now (insert_action t ks ∷ actions) bs more (inserted v f) g =
      inserted v (Fits-append s types before now actions bs more f g)
  Fits-append s types before now (update_action id ∷ actions) bs more
        (updated old new rest b n e w f) g =
      updated old new (rest ++ more) b n e (rw w (append_assoc (s.write old.obj) rest more))
        (Fits-append s types before now actions bs more f g)
  Fits-append s types before now (delete_action id p ∷ actions) bs more
        (deleted old rest b n e o z t w f) g =
      deleted old (rest ++ more) b n e o z t (rw w (append_assoc (s.write old.obj) rest more))
        (Fits-append s types before now actions bs more f g)

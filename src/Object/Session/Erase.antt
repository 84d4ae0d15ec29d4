-- ===== src/Object/Session/Erase.antt =====
-- What `action_remover` leaves of an insert action, and what a log says of the action at an index.
use oos.Prelude.{
  ℕ, zero, suc, ◌≡◌, false, List, [], ◌∷◌, none, some, get_elem?, ◌==◌, ==_iff, if◌then◌else◌,
  arith, Bool-cases, inl, inr,
}
use oos.Prelude.Bytes.{Bytes}
use oos.Object.Store.{Proxy, write_at}
use oos.Object.Transaction.{
  Serializer, Action, insert_action, update_action, delete_action, erase_id, visit, action_remove,
}
use oos.Object.Session.Log.{
  contains, AllDistinct, Map, AllNew, AllNew-frame, Fits, done, inserted, updated, deleted,
}
use oos.Object.Session.Splice.{splice}

-- `action_remover::remove` is a splice at the index.
pub action_remove-splice :
    {Obj : Type 0} (i : ℕ) (p : Proxy Obj) (actions : List (Action Obj)) (a : Action Obj)
    → get_elem? actions i ≡ some a
    → action_remove i p actions ≡ some (splice i (visit p a) actions)
unfolding action_remove
action_remove-splice i p [] a g = cc
action_remove-splice zero p (x ∷ actions) a g = let e : x ≡ a = cc in rw e
action_remove-splice (suc i) p (x ∷ actions) a g = rw (action_remove-splice i p actions a g)

pub contains-erase_id :
    (j id : ℕ) (ks : List ℕ)
    → AllDistinct ks
    → contains j (erase_id id ks) ≡ (if j == id then false else contains j ks)
unfolding erase_id
contains-erase_id j id [] d = ground arith
contains-erase_id j id (k ∷ ks) d =
    ground (arith, contains-erase_id j id ks d.1, ==_iff j id, ==_iff k id, ==_iff j k)

pub AllDistinct-erase_id : (id : ℕ) (ks : List ℕ) → AllDistinct ks → AllDistinct (erase_id id ks)
unfolding erase_id
AllDistinct-erase_id id [] d = tt
AllDistinct-erase_id id (k ∷ ks) d = elim (Bool-cases (k == id)) [
  | inl e ↦ rw e d.1
  | inr n ↦ rw n (ground (arith, contains-erase_id k id ks d.1), AllDistinct-erase_id id ks d.1)
]

pub AllNew-erase_id :
    {Obj : Type 0} (before now : Map Obj) (id : ℕ) (ks : List ℕ)
    → AllDistinct ks
    → AllNew before now ks
    → AllNew before (write_at id none now) (erase_id id ks)
unfolding erase_id
AllNew-erase_id before now id [] d v = tt
AllNew-erase_id before now id (k ∷ ks) d v = elim (Bool-cases (k == id)) [
  | inl e ↦ rw e (
      AllNew-frame before now (write_at id none now) ks
        (λ j m. ground (arith, ==_iff j id, ==_iff k id)) v.2)
  | inr n ↦ rw n (v.0, (v.1.0, rw n v.1.1), AllNew-erase_id before now id ks d.1 v.2)
]

pub Fits_get_delete :
    {Obj : Type 0} (s : Serializer Obj) (types : List Bytes) (before now : Map Obj)
    (actions : List (Action Obj)) {buffer : Bytes} (i k : ℕ) (q : Proxy Obj)
    → Fits s types before now actions buffer
    → get_elem? actions i ≡ some (delete_action k q)
    → now k ≡ none
Fits_get_delete s types before now [] i k q done g = cc
Fits_get_delete s types before now (insert_action t ks ∷ actions) zero k q (inserted w f) g = cc
Fits_get_delete s types before now (insert_action t ks ∷ actions) (suc i) k q (inserted w f) g =
    Fits_get_delete s types before now actions i k q f g
Fits_get_delete s types before now (update_action x ∷ actions) zero k q
      (updated old new rest b n e w f) g =
    cc
Fits_get_delete s types before now (update_action x ∷ actions) (suc i) k q
      (updated old new rest b n e w f) g =
    Fits_get_delete s types before now actions i k q f g
Fits_get_delete s types before now (delete_action x p ∷ actions) zero k q
      (deleted old rest b n e o z a w f) g =
    let d : x ≡ k = ground arith in rw (← d) n
Fits_get_delete s types before now (delete_action x p ∷ actions) (suc i) k q
      (deleted old rest b n e o z a w f) g =
    Fits_get_delete s types before now actions i k q f g

pub Fits_get_insert :
    {Obj : Type 0} (s : Serializer Obj) (types : List Bytes) (before now : Map Obj)
    (actions : List (Action Obj)) {buffer : Bytes} (i : ℕ) (t : Bytes) (ks : List ℕ)
    → Fits s types before now actions buffer
    → get_elem? actions i ≡ some (insert_action t ks)
    → AllNew before now ks
Fits_get_insert s types before now [] i t ks done g = cc
Fits_get_insert s types before now (insert_action u ls ∷ actions) zero t ks (inserted w f) g =
    let d : ls ≡ ks = cc in rw (← d) w
Fits_get_insert s types before now (insert_action u ls ∷ actions) (suc i) t ks (inserted w f) g =
    Fits_get_insert s types before now actions i t ks f g
Fits_get_insert s types before now (update_action x ∷ actions) zero t ks
      (updated old new rest b n e w f) g =
    cc
Fits_get_insert s types before now (update_action x ∷ actions) (suc i) t ks
      (updated old new rest b n e w f) g =
    Fits_get_insert s types before now actions i t ks f g
Fits_get_insert s types before now (delete_action x p ∷ actions) zero t ks
      (deleted old rest b n e o z a w f) g =
    cc
Fits_get_insert s types before now (delete_action x p ∷ actions) (suc i) t ks
      (deleted old rest b n e o z a w f) g =
    Fits_get_insert s types before now actions i t ks f g

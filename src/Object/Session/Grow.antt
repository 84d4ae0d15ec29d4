-- ===== src/Object/Session/Grow.antt =====
-- What an inserted object does to the log: the action that takes its id, and the result of the
-- inserter.
use oos.Prelude.{
  ℕ, zero, suc, ◌<◌, ◌≡◌, refl, ap, false, List, [], ◌∷◌, ◌++◌, none, some, length, get_elem?, ◌==◌,
  arith,
}
use oos.Object.Store.{Proxy}
use oos.Object.Transaction.{
  Action, insert_action, TransactionData, find_index, insert_index, insert_loop, action_insert,
  on_insert,
}
use oos.Object.Session.Log.{AllDistinct, AllDistinct-split, Map, ids_of, ids, AllNew}
use oos.Object.Session.Splice.{splice}

pub length-splice :
    {Obj : Type 0} (actions : List (Action Obj)) (i : ℕ) (b : Action Obj)
    → length (splice i (b ∷ []) actions) ≡ length actions
length-splice [] i b = refl
length-splice (a ∷ actions) zero b = refl
length-splice (a ∷ actions) (suc i) b = ap suc (length-splice actions i b)

pub AllDistinct-get :
    {Obj : Type 0} (actions : List (Action Obj)) (i : ℕ) (a : Action Obj)
    → get_elem? actions i ≡ some a
    → AllDistinct (ids actions)
    → AllDistinct (ids_of a)
AllDistinct-get [] i a g d = cc
AllDistinct-get (x ∷ actions) zero a g d =
    let e : x ≡ a = cc in rw (← e) (AllDistinct-split (ids_of x) (ids actions) d).0
AllDistinct-get (x ∷ actions) (suc i) a g d =
    AllDistinct-get actions i a g (AllDistinct-split (ids_of x) (ids actions) d).1

pub AllNew-concat :
    {Obj : Type 0} (before now : Map Obj) (ks : List ℕ) (id : ℕ) (p : Proxy Obj)
    → AllNew before now ks
    → before id ≡ none
    → now id ≡ some p
    → AllNew before now (ks ++ id ∷ [])
AllNew-concat before now [] id p v b n = (b, (p, n), tt)
AllNew-concat before now (k ∷ ks) id p v b n = (v.0, v.1, AllNew-concat before now ks id p v.2 b n)

pub on_insert_lem :
    {Obj : Type 0} (p : Proxy Obj) (d : TransactionData Obj) (actions : List (Action Obj)) (i : ℕ)
    → find_index p.oid d.id_action_index_map ≡ none
    → action_insert p d.actions ≡ (actions, i)
    → i < length actions
    → on_insert p d
      ≡ some (record d {
        actions = actions;
        id_action_index_map = insert_index p.oid i d.id_action_index_map;
      })
unfolding on_insert
on_insert_lem p d actions i n e lt =
    let no : (i == length actions) ≡ false = ground arith in rw (n, on_insert, e, no)

pub action_insert-none :
    {Obj : Type 0} (p : Proxy Obj) (actions : List (Action Obj))
    → insert_loop p.type p.oid 0 actions ≡ none
    → action_insert p actions ≡ (actions ++ insert_action p.type (p.oid ∷ []) ∷ [], length actions)
unfolding action_insert
action_insert-none p actions n = rw (n, action_insert)

pub action_insert-some :
    {Obj : Type 0} (p : Proxy Obj) (actions : List (Action Obj)) (r : List (Action Obj) × ℕ)
    → insert_loop p.type p.oid 0 actions ≡ some r
    → action_insert p actions ≡ r
unfolding action_insert
action_insert-some p actions r n = rw (n, action_insert)

-- ===== src/Json/Builder/Values.antt =====
-- The calls for a value build that value.
use oos.Prelude.{◌≡◌, ◌∙◌, refl, ap, true, false, List, [], ◌∷◌, ◌++◌, append_assoc, arith}
use mathlib.Core.Path.{subst}
use oos.Prelude.Bytes.{Bytes, equal}
use oos.Json.Value.{
  Json, Items, Fields, null, integer, real, boolean, string, object, array, no_items, item,
  no_fields, field, assign, push_item, less,
}
use oos.Json.Scalar.{Event}
use oos.Json.Events.{events, item_events, field_events}
use oos.Json.Builder.{set_at, add, on_end, on_event, on_events}
use oos.Json.Builder.Paths.{at-set_at, set_at-set_at}
use oos.Json.Builder.Build.{state, Adds, Fills, on_value-state, begin-Leads}

-- Every key is less than those behind it, as in a `std::map`, at every depth.
abbrev pub IsBelow : Bytes → Fields → Type 0
IsBelow k no_fields = Unit
IsBelow k (field j v fs) = (less k j ≡ true) × IsBelow k fs

abbrev mutual
  pub IsSorted : Json → Type 0
  IsSorted (object fs) = AreSortedFields fs
  IsSorted (array xs) = AreSorted xs
  IsSorted _ = Unit

  pub AreSorted : Items → Type 0
  AreSorted no_items = Unit
  AreSorted (item v xs) = IsSorted v × AreSorted xs

  pub AreSortedFields : Fields → Type 0
  AreSortedFields no_fields = Unit
  AreSortedFields (field k v fs) = IsBelow k fs × IsSorted v × AreSortedFields fs

-- All elements or members, added one after the other.
push_items : Items → Items → Items
push_items ys no_items = ys
push_items ys (item v xs) = push_items (push_item v ys) xs

assign_fields : Fields → Fields → Fields
assign_fields gs no_fields = gs
assign_fields gs (field k v fs) = assign_fields (assign k v gs) fs

push_items-item : (v : Json) (ys xs : Items) → push_items (item v ys) xs ≡ item v (push_items ys xs)
unfolding push_items push_item
push_items-item v ys no_items = refl
push_items-item v ys (item w xs) = push_items-item v (push_item w ys) xs

push_items-no_items : (xs : Items) → push_items no_items xs ≡ xs
unfolding push_items push_item
push_items-no_items no_items = refl
push_items-no_items (item v xs) =
    push_items-item v no_items xs ∙ ap (item v) (push_items-no_items xs)

pub less_asym : (j k : Bytes) → less j k ≡ true → (equal k j ≡ false) × (less k j ≡ false)
unfolding less
less_asym [] [] h = cc
less_asym [] (y ∷ ys) h = (refl, refl)
less_asym (x ∷ xs) [] h = cc
less_asym (x ∷ xs) (y ∷ ys) h = ground (arith, less_asym xs ys)

assign-below :
    (j k : Bytes) (w v : Json) (gs : Fields)
    → less j k ≡ true
    → assign k v (field j w gs) ≡ field j w (assign k v gs)
unfolding assign
assign-below j k w v gs h = let (e, d) = less_asym j k h in rw (e, d) refl

assign_fields-field :
    (j : Bytes) (w : Json) (gs fs : Fields)
    → IsBelow j fs
    → assign_fields (field j w gs) fs ≡ field j w (assign_fields gs fs)
unfolding assign_fields
assign_fields-field j w gs no_fields h = refl
assign_fields-field j w gs (field k v fs) (h, hs) =
    ap (λ (t : Fields). assign_fields t fs) (assign-below j k w v gs h)
    ∙ assign_fields-field j w (assign k v gs) fs hs

assign_fields-no_fields : (fs : Fields) → AreSortedFields fs → assign_fields no_fields fs ≡ fs
unfolding assign_fields assign
assign_fields-no_fields no_fields h = refl
assign_fields-no_fields (field k v fs) (below, h, hs) =
    assign_fields-field k v no_fields fs below ∙ ap (field k v) (assign_fields-no_fields fs hs)

mutual
  unfolding events on_events on_event on_end push_items assign_fields add

  value-Adds : (x : Json) → IsSorted x → Adds (events x) x
  value-Adds null s v c k p ps e h later = (k, rw (on_value-state null v c k p ps e h) refl)
  value-Adds (integer n) s v c k p ps e h later =
      (k, rw (on_value-state (integer n) v c k p ps e h) refl)
  value-Adds (real n) s v c k p ps e h later = (k, rw (on_value-state (real n) v c k p ps e h) refl)
  value-Adds (boolean b) s v c k p ps e h later =
      (k, rw (on_value-state (boolean b) v c k p ps e h) refl)
  value-Adds (string t) s v c k p ps e h later =
      (k, rw (on_value-state (string t) v c k p ps e h) refl)
  value-Adds (object fs) s v c k p ps e h later =
      begin-Leads v c k p e h (object no_fields) (object fs) (field_events fs) ps
        (subst (λ (t : Fields). Fills (field_events fs) (object no_fields) (object t))
          (assign_fields-no_fields fs s) (fields-Fill fs no_fields s))
        later
  value-Adds (array xs) s v c k p ps e h later =
      begin-Leads v c k p e h (array no_items) (array xs) (item_events xs) ps
        (subst (λ (t : Items). Fills (item_events xs) (array no_items) (array t))
          (push_items-no_items xs) (items-Fill xs no_items s))
        later

  items-Fill :
      (xs ys : Items) → AreSorted xs → Fills (item_events xs) (array ys) (array (push_items ys xs))
  items-Fill no_items ys s v c k p ps e later = (k, refl)
  items-Fill (item x xs) ys (s, t) v c k p ps e later =
      let (k', d) =
        value-Adds x s (set_at p (array ys) v) (array ys) k p ps (at-set_at p (array ys) v e) refl
          (item_events xs ++ later) in
      let (last, g) = items-Fill xs (push_item x ys) t v c k' p ps e later in
      (
        last,
        ap (λ (es : List Event). on_events es (state (set_at p (array ys) v) k (p ∷ ps)))
              (append_assoc (events x) (item_events xs) later)
            ∙ d
            ∙ ap (λ (w : Json). on_events (item_events xs ++ later) (state w k' (p ∷ ps)))
                (set_at-set_at p (array (push_item x ys)) (array ys) v e)
            ∙ g,
      )

  fields-Fill :
      (fs gs : Fields)
      → AreSortedFields fs
      → Fills (field_events fs) (object gs) (object (assign_fields gs fs))
  fields-Fill no_fields gs s v c k p ps e later = (k, refl)
  fields-Fill (field j x fs) gs (below, s, t) v c k p ps e later =
      let (k', d) =
        value-Adds x s (set_at p (object gs) v) (object gs) j p ps (at-set_at p (object gs) v e)
          refl (field_events fs ++ later) in
      let (last, g) = fields-Fill fs (assign j x gs) t v c k' p ps e later in
      (
        last,
        ap (λ (es : List Event). on_events es (state (set_at p (object gs) v) j (p ∷ ps)))
              (append_assoc (events x) (field_events fs) later)
            ∙ d
            ∙ ap (λ (w : Json). on_events (field_events fs ++ later) (state w k' (p ∷ ps)))
                (set_at-set_at p (object (assign j x gs)) (object gs) v e)
            ∙ g,
      )

-- The fields and elements that an empty container is filled with are those of the value.
pub array-Fills : (xs : Items) → AreSorted xs → Fills (item_events xs) (array no_items) (array xs)
array-Fills xs s =
    subst (λ (t : Items). Fills (item_events xs) (array no_items) (array t))
      (push_items-no_items xs) (items-Fill xs no_items s)

pub object-Fills :
    (fs : Fields) → AreSortedFields fs → Fills (field_events fs) (object no_fields) (object fs)
object-Fills fs s =
    subst (λ (t : Fields). Fills (field_events fs) (object no_fields) (object t))
      (assign_fields-no_fields fs s) (fields-Fill fs no_fields s)

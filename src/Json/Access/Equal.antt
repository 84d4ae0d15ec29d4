-- ===== src/Json/Access/Equal.antt =====
-- Equality of values without reals.
use oos.Prelude.{ℕ, ◌≡◌, ◌↔◌, ◌<◌, refl, ap, sym, ◌∙◌, Bool, true, false, ◌&&◌, arith}
use oos.Prelude.Bytes.{equal, equal_iff}
use oos.Prelude.Int.{pos, negsuc}
use oos.Json.Value.{
  Json, Items, Fields, null, integer, real, boolean, string, object, array, no_items, item,
  no_fields, field,
}
use oos.Json.Access.{equal_json, equal_items, equal_fields}

abbrev mutual
  pub LacksReals : Json → Type 0
  LacksReals (real x) = 0 < 0
  LacksReals (object fs) = FieldsLackReals fs
  LacksReals (array xs) = ItemsLackReals xs
  LacksReals _ = Unit

  pub ItemsLackReals : Items → Type 0
  ItemsLackReals no_items = Unit
  ItemsLackReals (item v xs) = LacksReals v × ItemsLackReals xs

  pub FieldsLackReals : Fields → Type 0
  FieldsLackReals no_fields = Unit
  FieldsLackReals (field k v fs) = LacksReals v × FieldsLackReals fs

all_true : (a b c : Bool) → (a && b && c) ≡ true → (a ≡ true) × (b ≡ true) × (c ≡ true)
all_true true true true e = (refl, refl, refl)
all_true true true false e = cc
all_true true false c e = cc
all_true false b c e = cc

module _ (equal_real : ℕ → ℕ → Bool) where
  mutual
    unfolding equal_json

    equal_json_sound : (v w : Json) → LacksReals v → equal_json equal_real v w ≡ true → v ≡ w
    equal_json_sound null null h e = refl
    equal_json_sound (integer (pos m)) (integer (pos n)) h e = ground (arith, e)
    equal_json_sound (integer (negsuc m)) (integer (negsuc n)) h e = ground (arith, e)
    equal_json_sound (real x) w h e = absurd (omega (arith, h))
    equal_json_sound (boolean true) (boolean true) h e = refl
    equal_json_sound (boolean false) (boolean false) h e = refl
    equal_json_sound (string s) (string t) h e = cc ((equal_iff s t).0 e)
    equal_json_sound (object fs) (object gs) h e = cc (equal_fields_sound fs gs h e)
    equal_json_sound (array xs) (array ys) h e = cc (equal_items_sound xs ys h e)
    equal_json_sound _ _ h e = cc

    equal_items_sound :
        (xs ys : Items) → ItemsLackReals xs → equal_items equal_real xs ys ≡ true → xs ≡ ys
    equal_items_sound no_items no_items h e = refl
    equal_items_sound (item v xs) (item w ys) (h, hs) e =
        ground (arith, equal_json_sound v w h, equal_items_sound xs ys hs)
    equal_items_sound _ _ h e = cc

    equal_fields_sound :
        (fs gs : Fields) → FieldsLackReals fs → equal_fields equal_real fs gs ≡ true → fs ≡ gs
    equal_fields_sound no_fields no_fields h e = refl
    equal_fields_sound (field k v fs) (field j w gs) (h, hs) e =
        let (p, q, r) =
          all_true (equal k j) (equal_json equal_real v w) (equal_fields equal_real fs gs) e in
        cc ((equal_iff k j).0 p, equal_json_sound v w h q, equal_fields_sound fs gs hs r)
    equal_fields_sound _ _ h e = cc

  mutual
    unfolding equal_json

    equal_json_refl : (v : Json) → LacksReals v → equal_json equal_real v v ≡ true
    equal_json_refl null h = refl
    equal_json_refl (integer (pos n)) h = ground arith
    equal_json_refl (integer (negsuc n)) h = ground arith
    equal_json_refl (real x) h = absurd (omega (arith, h))
    equal_json_refl (boolean true) h = refl
    equal_json_refl (boolean false) h = refl
    equal_json_refl (string s) h = (equal_iff s s).1 refl
    equal_json_refl (object fs) h = equal_fields_refl fs h
    equal_json_refl (array xs) h = equal_items_refl xs h

    equal_items_refl : (xs : Items) → ItemsLackReals xs → equal_items equal_real xs xs ≡ true
    equal_items_refl no_items h = refl
    equal_items_refl (item v xs) (h, hs) = rw (equal_json_refl v h, equal_items_refl xs hs) refl

    equal_fields_refl : (fs : Fields) → FieldsLackReals fs → equal_fields equal_real fs fs ≡ true
    equal_fields_refl no_fields h = refl
    equal_fields_refl (field k v fs) (h, hs) =
        let e : equal k k ≡ true = (equal_iff k k).1 refl in
        rw (e, equal_json_refl v h, equal_fields_refl fs hs) refl

  -- `==` of a value without reals and any value holds exactly if they are the same, whatever the equality
  -- of reals.
  pub equal_json_iff : (v w : Json) → LacksReals v → (equal_json equal_real v w ≡ true) ↔ (v ≡ w)
  equal_json_iff v w h = (
    equal_json_sound v w h,
    λ e. ap (λ (u : Json). equal_json equal_real v u) (sym e) ∙ equal_json_refl v h,
  )

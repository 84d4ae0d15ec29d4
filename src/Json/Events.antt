-- ===== src/Json/Events.antt =====
-- What the parser calls for a value, in the order of its text, and which values have a text that is
-- read back: numbers are whole and in the range of `long long`, and strings and keys hold no
-- character that would have to be escaped.
use oos.Prelude.{ℕ, suc, ◌+◌, ◌<◌, List, [], ◌∷◌, ◌++◌}
use oos.Json.Value.{
  Json, Items, Fields, null, integer, real, boolean, string, object, array, no_items, item,
  no_fields, field,
}
use oos.Json.Scalar.{
  Event, on_begin_object, on_end_object, on_begin_array, on_end_array, on_object_key, on_string,
  on_integer, on_real, on_bool, on_null,
}
use oos.Json.Scalar.Reads.{IsPlain, IsLong}

unfoldable mutual
  pub events : Json → List Event
  events null = on_null ∷ []
  events (integer n) = on_integer n ∷ []
  events (real x) = on_real x ∷ []
  events (boolean b) = on_bool b ∷ []
  events (string s) = on_string s ∷ []
  events (object fs) = on_begin_object ∷ field_events fs
  events (array xs) = on_begin_array ∷ item_events xs

  -- with the call at the end of the array
  pub item_events : Items → List Event
  item_events no_items = on_end_array ∷ []
  item_events (item v xs) = events v ++ item_events xs

  pub field_events : Fields → List Event
  field_events no_fields = on_end_object ∷ []
  field_events (field k v fs) = on_object_key k ∷ (events v ++ field_events fs)

abbrev mutual
  pub IsPrintable : Json → Type 0
  IsPrintable (integer n) = IsLong n
  IsPrintable (real x) = 0 < 0
  IsPrintable (string s) = IsPlain s
  IsPrintable (object fs) = ArePrintableFields fs
  IsPrintable (array xs) = ArePrintable xs
  IsPrintable _ = Unit

  pub ArePrintable : Items → Type 0
  ArePrintable no_items = Unit
  ArePrintable (item v xs) = IsPrintable v × ArePrintable xs

  pub ArePrintableFields : Fields → Type 0
  ArePrintableFields no_fields = Unit
  ArePrintableFields (field k v fs) = IsPlain k × IsPrintable v × ArePrintableFields fs

-- The fuel that the parser takes for the text of a value.
abbrev mutual
  pub need : Json → ℕ
  need (object fs) = suc (suc (need_fields fs))
  need (array xs) = suc (suc (need_items xs))
  need _ = 0

  pub need_items : Items → ℕ
  need_items no_items = 0
  need_items (item v xs) = suc (suc (need v + need_items xs))

  pub need_fields : Fields → ℕ
  need_fields no_fields = 0
  need_fields (field k v fs) = suc (suc (need v + need_fields fs))

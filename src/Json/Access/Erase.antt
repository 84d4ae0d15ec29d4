-- ===== src/Json/Access/Erase.antt =====
-- The members of an object behind `erase`.
use oos.Prelude.{
  ◌≡◌, ◌∙◌, refl, ap, [], ◌∷◌, Bool, true, false, Option, none, if◌then◌else◌, Bool-cases, inl, inr,
  arith,
}
use oos.Prelude.Bytes.{Bytes, equal, equal_iff}
use oos.Json.Value.{Json, Fields, object, no_fields, field, lookup, erase_field}
use oos.Json.Builder.Values.{IsBelow, AreSortedFields, less_asym}
use oos.Json.Access.{erase_key, get}

equal_sym : (j k : Bytes) → equal j k ≡ equal k j
equal_sym [] [] = refl
equal_sym [] (y ∷ k) = refl
equal_sym (x ∷ j) [] = refl
equal_sym (x ∷ j) (y ∷ k) = ground (arith, equal_sym j k)

-- A key that is less than all others is not there.
lookup-below : (k : Bytes) (fs : Fields) → IsBelow k fs → lookup k fs ≡ none
unfolding lookup
lookup-below k no_fields h = refl
lookup-below k (field j v fs) (h, hs) =
    let e : equal j k ≡ false = (less_asym k j h).0 in rw (equal_sym k j, e) (lookup-below k fs hs)

if-same : (b : Bool) (o : Option Json) → o ≡ (if b then o else o)
if-same true o = refl
if-same false o = refl

lookup-erase_field :
    (j k : Bytes) (fs : Fields)
    → AreSortedFields fs
    → lookup j (erase_field k fs) ≡ (if equal j k then none else lookup j fs)
unfolding lookup erase_field
lookup-erase_field j k no_fields h = if-same (equal j k) none
lookup-erase_field j k (field i v fs) (below, h, hs) = elim (Bool-cases (equal k i)) [
  | inl e ↦
      let same : k ≡ i = (equal_iff k i).0 e in
      elim (Bool-cases (equal j i)) [
        | inl d ↦
            let gone : lookup j fs ≡ none =
              ap (λ (t : Bytes). lookup t fs) ((equal_iff j i).0 d) ∙ lookup-below i fs below in
            rw (e, same, d) gone
        | inr d ↦ rw (e, same, d) refl
      ]
  | inr e ↦ elim (Bool-cases (equal j i)) [
    | inl d ↦
        let other : equal j k ≡ false =
          ap (λ (t : Bytes). equal t k) ((equal_iff j i).0 d) ∙ equal_sym i k ∙ e in
        rw (e, d, other) refl
    | inr d ↦ rw (e, d) (lookup-erase_field j k fs hs)
  ]
]

-- In an object whose keys are in the order of the map, at every depth, `erase` takes away the member of
-- the key, and leaves the others as they are.
pub get-erase_key :
    (j k : Bytes) (fs : Fields)
    → AreSortedFields fs
    → get j (erase_key k (object fs)) ≡ (if equal j k then none else get j (object fs))
unfolding get erase_key
get-erase_key j k fs h = lookup-erase_field j k fs h

-- ===== src/Json/Access/AtPath.antt =====
-- Values at a path.
use mathlib.Core.Option.{some-injective}
use oos.Prelude.{ℕ, ◌≡◌, ◌≢◌, ◌⊎◌, ◌↔◌, refl, ap, inl, inr, List, [], ◌∷◌, some, none, Bool-cases}
use oos.Prelude.Bytes.{Bytes, equal, equal_iff}
use oos.Prelude.Fallible.{>>=-eq-some}
use oos.Utils.Strings.Split.{AreItems, join, split-join}
use oos.Json.Value.{
  Json, Fields, null, integer, real, boolean, string, object, array, field, no_fields, lookup,
}
use oos.Json.Access.{at_path, follow, get}

-- The first member with the key has the value.
abbrev pub Holds : Bytes → Json → Fields → Type 0
Holds k w no_fields = none ≡ some w
Holds k w (field j v fs) = ((k ≡ j) × (v ≡ w)) ⊎ ((k ≢ j) × Holds k w fs)

-- The keys lead from one value to another, each to a member of the object that the keys before it lead to.
abbrev pub Leads : List Bytes → Json → Json → Type 0
Leads [] v w = v ≡ w
Leads (k ∷ ks) v w = (fs : Fields) × (x : Json) × (v ≡ object fs) × Holds k x fs × Leads ks x w

lookup-Holds : (k : Bytes) (w : Json) (fs : Fields) → lookup k fs ≡ some w → Holds k w fs
unfolding lookup
lookup-Holds k w no_fields h = h
lookup-Holds k w (field j v fs) h = elim (Bool-cases (equal k j)) [
  | inl e ↦ inl ((equal_iff k j).0 e, some-injective v w (rw e at h))
  | inr e ↦ inr ((λ d. let t = (equal_iff k j).1 d in cc), lookup-Holds k w fs (rw e at h))
]

Holds-lookup : (k : Bytes) (w : Json) (fs : Fields) → Holds k w fs → lookup k fs ≡ some w
unfolding lookup
Holds-lookup k w no_fields h = h
Holds-lookup k w (field j v fs) (inl (e, d)) = rw ((equal_iff k j).1 e) (ap some d)
Holds-lookup k w (field j v fs) (inr (n, h)) = elim (Bool-cases (equal k j)) [
  | inl e ↦ absurd (n ((equal_iff k j).0 e))
  | inr e ↦ rw e (Holds-lookup k w fs h)
]

get-object :
    (k : Bytes) (v x : Json)
    → get k v ≡ some x
    → (fs : Fields) × (v ≡ object fs) × (lookup k fs ≡ some x)
unfolding get
get-object k null x h = cc
get-object k (integer n) x h = cc
get-object k (real r) x h = cc
get-object k (boolean b) x h = cc
get-object k (string s) x h = cc
get-object k (array xs) x h = cc
get-object k (object fs) x h = (fs, refl, h)

follow_iff : (ks : List Bytes) (v w : Json) → (follow ks v ≡ some w) ↔ Leads ks v w
unfolding follow get
follow_iff [] v w = (some-injective v w, ap some)
follow_iff (k ∷ ks) v w = (
  (λ h.
      let (x, e, rest) = >>=-eq-some (get k v) (λ x. follow ks x) h in
      let (fs, d, l) = get-object k v x e in
      (fs, x, d, lookup-Holds k x fs l, (follow_iff ks x w).0 rest)),
  (λ (fs, x, d, l, rest).
      let e : get k v ≡ some x = rw d (Holds-lookup k x fs l) in rw e ((follow_iff ks x w).1 rest)),
)

-- At the path that joins some keys, where no key has the delimiter in it and the last is not empty,
-- `at_path` gives a value exactly where the keys lead to it through the members of objects.
pub at_path_iff :
    (delimiter : ℕ) (k : Bytes) (ks : List Bytes) (v w : Json)
    → AreItems delimiter k ks
    → (at_path (join delimiter k ks) delimiter v ≡ some w) ↔ Leads (k ∷ ks) v w
unfolding at_path
at_path_iff delimiter k ks v w h = rw (split-join delimiter k ks h) (follow_iff (k ∷ ks) v w)

-- ===== src/Utils/Stream/Spec.antt =====
-- What the stages of a stream do, as functions on the list of its elements: the comments of
-- include/matador/utils/stream.hpp.
use oos.Prelude.{
  ℕ, zero, suc, ◌-◌, Bool, true, false, ◌&&◌, ◌||◌, Option, none, some, List, [], ◌∷◌, ◌++◌,
  if◌then◌else◌,
}

module _ {ℓ} {A : Type ℓ} where
  abbrev pub keep : (A → Bool) → List A → List A
  keep p [] = []
  keep p (x ∷ xs) = if p x then x ∷ keep p xs else keep p xs

  abbrev pub take_while : (A → Bool) → List A → List A
  take_while p [] = []
  take_while p (x ∷ xs) = if p x then x ∷ take_while p xs else []

  abbrev pub drop_while : (A → Bool) → List A → List A
  drop_while p [] = []
  drop_while p (x ∷ xs) = if p x then drop_while p xs else x ∷ xs

  -- The elements at the positions `k`, `k + n`, `k + 2 n` and so on.
  abbrev pub every_nth : ℕ → ℕ → List A → List A
  every_nth n k [] = []
  every_nth n zero (x ∷ xs) = x ∷ every_nth n (n - 1) xs
  every_nth n (suc k) (x ∷ xs) = every_nth n k xs

  -- The full packs of `n` elements, when the first one holds `acc` and misses `k` beside the next.
  abbrev pub packs : ℕ → ℕ → List A → List A → List (List A)
  packs n k acc [] = []
  packs n zero acc (x ∷ xs) = (acc ++ (x ∷ [])) ∷ packs n (n - 1) [] xs
  packs n (suc k) acc (x ∷ xs) = packs n k (acc ++ (x ∷ [])) xs

  abbrev pub fold {κ} : {B : Type κ} → (B → A → B) → B → List A → B
  fold f b [] = b
  fold f b (x ∷ xs) = fold f (f b x) xs

module _ {ℓ} {A : Type ℓ} where
  abbrev pub fold_first : (A → A → A) → List A → Option A
  fold_first f [] = none
  fold_first f (x ∷ xs) = some (fold f x xs)

  abbrev pub any_of : (A → Bool) → List A → Bool
  any_of p [] = false
  any_of p (x ∷ xs) = p x || any_of p xs

  abbrev pub all_of : (A → Bool) → List A → Bool
  all_of p [] = true
  all_of p (x ∷ xs) = p x && all_of p xs

abbrev pub flat_map {ℓ κ} : {A : Type ℓ} {B : Type κ} → (A → List B) → List A → List B
flat_map f [] = []
flat_map f (x ∷ xs) = f x ++ flat_map f xs

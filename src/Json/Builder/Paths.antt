-- ===== src/Json/Builder/Paths.antt =====
-- The value behind a path after a write to it.
use oos.Prelude.{◌≡◌, ◌∙◌, refl, ap, sym, true, List, [], ◌∷◌, ◌++◌, Option, none, some, arith}
use oos.Prelude.Bytes.{Bytes, equal}
use oos.Prelude.Fallible.{◌>>=◌, >>=-eq-some}
use oos.Json.Value.{
  Json, Items, Fields, object, array, no_items, item, no_fields, field, lookup, assign, push_item,
  last_item, set_last,
}
use oos.Json.Builder.{Step, member, back, at_step, set_step, at, set_at, add, added, is_container}

equal_refl : (k : Bytes) → equal k k ≡ true
equal_refl [] = refl
equal_refl (x ∷ xs) = ground (arith, equal_refl xs)

lookup-assign : (k : Bytes) (v : Json) (fs : Fields) → lookup k (assign k v fs) ≡ some v
unfolding lookup assign
lookup-assign k v no_fields = ground (arith, equal_refl k)
lookup-assign k v (field j w fs) = ground (arith, equal_refl k, lookup-assign k v fs)

assign-assign : (k : Bytes) (x y : Json) (fs : Fields) → assign k x (assign k y fs) ≡ assign k x fs
unfolding assign
assign-assign k x y no_fields = ground (arith, equal_refl k)
assign-assign k x y (field j w fs) = ground (arith, equal_refl k, assign-assign k x y fs)

last-push : (x : Json) (xs : Items) → last_item (push_item x xs) ≡ some x
unfolding last_item push_item
last-push x no_items = refl
last-push x (item v no_items) = refl
last-push x (item v (item w xs)) = last-push x (item w xs)

set_last-push : (x y : Json) (xs : Items) → set_last x (push_item y xs) ≡ push_item x xs
unfolding set_last push_item
set_last-push x y no_items = refl
set_last-push x y (item v no_items) = refl
set_last-push x y (item v (item w xs)) = ap (item v) (set_last-push x y (item w xs))

last-set_last :
    (x : Json) (xs : Items) {w : Json} → last_item xs ≡ some w → last_item (set_last x xs) ≡ some x
unfolding last_item set_last
last-set_last x no_items e = cc
last-set_last x (item v no_items) e = refl
last-set_last x (item v (item u no_items)) e = refl
last-set_last x (item v (item u (item t xs))) e = last-set_last x (item u (item t xs)) e

set_last-set_last : (x y : Json) (xs : Items) → set_last x (set_last y xs) ≡ set_last x xs
unfolding set_last
set_last-set_last x y no_items = refl
set_last-set_last x y (item v no_items) = refl
set_last-set_last x y (item v (item u no_items)) = refl
set_last-set_last x y (item v (item u (item t xs))) =
    ap (item v) (set_last-set_last x y (item u (item t xs)))

at-set_step :
    (s : Step) (x v : Json) {w : Json} → at_step s v ≡ some w → at_step s (set_step s x v) ≡ some x
unfolding at_step set_step
at-set_step (member k) x (object fs) e = lookup-assign k x fs
at-set_step back x (array xs) e = last-set_last x xs e
at-set_step s x v e = cc

set-set_step : (s : Step) (x y v : Json) → set_step s x (set_step s y v) ≡ set_step s x v
unfolding set_step
set-set_step (member k) x y (object fs) = ap object (assign-assign k x y fs)
set-set_step back x y (array xs) = ap array (set_last-set_last x y xs)
set-set_step s x y v = refl

-- What was added stands at its step, and a write there is as if that had been added.
pub at_step-add :
    (k : Bytes) (x c : Json) → is_container c ≡ true → at_step (added k c) (add k x c) ≡ some x
unfolding at_step added add is_container
at_step-add k x (object fs) h = lookup-assign k x fs
at_step-add k x (array xs) h = last-push x xs
at_step-add k x v h = cc

pub set_step-add :
    (k : Bytes) (x y c : Json)
    → is_container c ≡ true
    → set_step (added k c) x (add k y c) ≡ add k x c
unfolding set_step added add is_container
set_step-add k x y (object fs) h = ap object (assign-assign k x y fs)
set_step-add k x y (array xs) h = ap array (set_last-push x y xs)
set_step-add k x y v h = cc

-- A path is there exactly where its first step is, and the rest behind it.
at-cons :
    (s : Step) (p : List Step) (v : Json) {c : Json}
    → at (s ∷ p) v ≡ some c
    → (w : Json) × (at_step s v ≡ some w) × (at p w ≡ some c)
unfolding at
at-cons s p v e = >>=-eq-some (at_step s v) (λ w. at p w) e

at-step : (s : Step) (p : List Step) (v w : Json) → at_step s v ≡ some w → at (s ∷ p) v ≡ at p w
unfolding at
at-step s p v w e = rw (at, e) refl

set_at-step :
    (s : Step) (p : List Step) (x v w : Json)
    → at_step s v ≡ some w
    → set_at (s ∷ p) x v ≡ set_step s (set_at p x w) v
unfolding set_at
set_at-step s p x v w e = rw (set_at, e) refl

pub at-set_at :
    (p : List Step) (x v : Json) {c : Json} → at p v ≡ some c → at p (set_at p x v) ≡ some x
unfolding at set_at
at-set_at [] x v e = refl
at-set_at (s ∷ p) x v e =
    let (w, d, g) = at-cons s p v e in
    ap (λ (u : Json). at (s ∷ p) u) (set_at-step s p x v w d)
    ∙ at-step s p (set_step s (set_at p x w) v) (set_at p x w) (at-set_step s (set_at p x w) v d)
    ∙ at-set_at p x w g

pub set_at-set_at :
    (p : List Step) (x y v : Json) {c : Json}
    → at p v ≡ some c
    → set_at p x (set_at p y v) ≡ set_at p x v
unfolding set_at
set_at-set_at [] x y v e = refl
set_at-set_at (s ∷ p) x y v e =
    let (w, d, g) = at-cons s p v e in
    ap (λ (u : Json). set_at (s ∷ p) x u) (set_at-step s p y v w d)
    ∙ set_at-step s p x (set_step s (set_at p y w) v) (set_at p y w)
        (at-set_step s (set_at p y w) v d)
    ∙ set-set_step s (set_at p x (set_at p y w)) (set_at p y w) v
    ∙ ap (λ (u : Json). set_step s u v) (set_at-set_at p x y w g)
    ∙ sym (set_at-step s p x v w d)

root : (v : Json) {c : Json} → at [] v ≡ some c → v ≡ c
unfolding at
root v e = cc

found : (o : Option Json) → (o >>= λ w. some w) ≡ o
found none = refl
found (some w) = refl

-- A step behind a path
pub at-append :
    (p : List Step) (s : Step) (v : Json) {c : Json}
    → at p v ≡ some c
    → at (p ++ s ∷ []) v ≡ at_step s c
unfolding at
at-append [] s v {c} e = let same : v ≡ c = root v e in rw (at, same) (found (at_step s c))
at-append (t ∷ p) s v e =
    let (w, d, g) = at-cons t p v e in at-step t (p ++ s ∷ []) v w d ∙ at-append p s w g

pub set_at-append :
    (p : List Step) (s : Step) (x v : Json) {c w : Json}
    → at p v ≡ some c
    → at_step s c ≡ some w
    → set_at (p ++ s ∷ []) x v ≡ set_at p (set_step s x c) v
unfolding set_at
set_at-append [] s x v {c} {w} e h =
    let same : v ≡ c = root v e in
    set_at-step s [] x v w (ap (at_step s) same ∙ h) ∙ ap (set_step s x) same
set_at-append (t ∷ p) s x v {c} e h =
    let (w, d, g) = at-cons t p v e in
    set_at-step t (p ++ s ∷ []) x v w d
    ∙ ap (λ (u : Json). set_step t u v) (set_at-append p s x w g h)
    ∙ sym (set_at-step t p (set_step s x c) v w d)

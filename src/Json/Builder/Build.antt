-- ===== src/Json/Builder/Build.antt =====
-- The calls for a value add it to the container on top of the stack.
use oos.Prelude.{◌≡◌, ◌∙◌, refl, ap, true, List, [], ◌∷◌, ◌++◌, some}
use oos.Prelude.Bytes.{Bytes}
use oos.Json.Value.{Json}
use oos.Json.Scalar.{Event}
use oos.Json.Builder.{
  Step, Builder, at, set_at, add, added, top, on_begin, on_value, on_events, is_container,
}
use oos.Json.Builder.Paths.{
  at_step-add, set_step-add, at-set_at, set_at-set_at, at-append, set_at-append,
}

abbrev pub state : Json → Bytes → List (List Step) → Builder
state v k ps = record { value = v; key = k; state_stack = ps }

-- The calls `es`, which come first, lead from one state to another, with some last key.
abbrev pub Leads : List Event → Builder → Json → List (List Step) → Type 0
Leads es b w qs =
    (later : List Event)
    → (k : Bytes) × (on_events (es ++ later) b ≡ on_events later (state w k qs))

-- The calls add a value to the container that is on top of the stack.
abbrev pub Adds : List Event → Json → Type 0
Adds es x =
    (v c : Json) (k : Bytes) (p : List Step) (ps : List (List Step))
    → at p v ≡ some c
    → is_container c ≡ true
    → Leads es (state v k (p ∷ ps)) (set_at p (add k x c) v) (p ∷ ps)

-- The calls turn the container on top of the stack from `x` into `y`, and take it off.
abbrev pub Fills : List Event → Json → Json → Type 0
Fills es x y =
    (v c : Json) (k : Bytes) (p : List Step) (ps : List (List Step))
    → at p v ≡ some c
    → Leads es (state (set_at p x v) k (p ∷ ps)) (set_at p y v) ps

pub on_value-state :
    (x v c : Json) (k : Bytes) (p : List Step) (ps : List (List Step))
    → at p v ≡ some c
    → is_container c ≡ true
    → on_value x (state v k (p ∷ ps)) ≡ some (state (set_at p (add k x c) v) k (p ∷ ps))
unfolding on_value top
on_value-state x v c k p ps e h = rw (on_value, top, e, h) refl

module _ (v c : Json) (k : Bytes) (p : List Step) (found : at p v ≡ some c)
    (holds : is_container c ≡ true) where
  abbrev behind : List Step
  behind = p ++ added k c ∷ []

  -- A write to what was added is as if that had been added.
  set_at-behind : (x y : Json) → set_at behind y (set_at p (add k x c) v) ≡ set_at p (add k y c) v
  set_at-behind x y =
      set_at-append p (added k c) y (set_at p (add k x c) v) (at-set_at p (add k x c) v found)
        (at_step-add k x c holds)
      ∙ ap (λ (u : Json). set_at p u (set_at p (add k x c) v)) (set_step-add k y x c holds)
      ∙ set_at-set_at p (add k y c) (add k x c) v found

  on_begin-state :
      (x : Json) (ps : List (List Step))
      → on_begin x (state v k (p ∷ ps))
        ≡ state (set_at behind x (set_at p (add k x c) v)) k (behind ∷ p ∷ ps)
  unfolding on_begin top
  on_begin-state x ps = rw (set_at-behind x x, on_begin, top, found) refl

  pub begin-Leads :
      (x y : Json) (es : List Event) (ps : List (List Step))
      → Fills es x y
      → Leads es (on_begin x (state v k (p ∷ ps))) (set_at p (add k y c) v) (p ∷ ps)
  begin-Leads x y es ps fills later =
      let (k', e) =
        fills (set_at p (add k x c) v) x k behind (p ∷ ps)
          (at-append p (added k c) (set_at p (add k x c) v) (at-set_at p (add k x c) v found)
            ∙ at_step-add k x c holds)
          later in
      (
        k',
        ap (λ (b : Builder). on_events (es ++ later) b) (on_begin-state x ps)
            ∙ e
            ∙ ap (λ (w : Json). on_events later (state w k' (p ∷ ps))) (set_at-behind x y),
      )

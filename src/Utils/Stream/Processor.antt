-- ===== src/Utils/Stream/Processor.antt =====
-- What one call of `stream_element_processor::process` and the call of `value()` behind it give, and
-- the sequence of elements that repeated calls give.
--
-- A processor is a function on its state: the fields that the class changes, those of the processor
-- before it (`successor_`) included. Two streams that share one processor are not modelled.
use mathlib.Core.Path.{◌≡◌}
use mathlib.Core.List.{List, [], ◌∷◌, ◌++◌}
use oos.Prelude.Outcome.{Outcome, ok}

-- `true` with the value, or `false`.
pub data Pull {ℓ κ} (S : Type ℓ) (A : Type κ) : Type (ℓ ⊔ κ) where
  yields : A → S → Pull S A
  ends : S → Pull S A

module _ {ℓ κ} {S : Type ℓ} {A : Type κ} (process : S → Outcome (Pull S A)) where
  -- The calls from this state on give these elements, and then `false`.
  abbrev pub Lists : S → List A → Type (ℓ ⊔ κ)
  Lists s [] = (t : S) × (process s ≡ ok (ends t))
  Lists s (a ∷ rest) = (t : S) × (process s ≡ ok (yields a t)) × Lists t rest

  -- The same, where a property relates each state on the way to the elements that were given before
  -- it.
  abbrev pub ListsWith {κ'} : (List A → S → Type κ') → List A → S → List A → Type (ℓ ⊔ κ ⊔ κ')
  ListsWith P given s [] = P given s × (t : S) × (process s ≡ ok (ends t)) × P given t
  ListsWith P given s (a ∷ rest) =
      P given s × (t : S) × (process s ≡ ok (yields a t)) × ListsWith P (given ++ a ∷ []) t rest

  -- They give these elements first, whatever follows.
  abbrev pub Starts : S → List A → Type (ℓ ⊔ κ)
  Starts s [] = Unit
  Starts s (a ∷ rest) = (t : S) × (process s ≡ ok (yields a t)) × Starts t rest

  -- The same of a call that has been made, with the result `r`.
  abbrev pub Remaining : Outcome (Pull S A) → List A → Type (ℓ ⊔ κ)
  Remaining r [] = (t : S) × (r ≡ ok (ends t))
  Remaining r (a ∷ rest) = (t : S) × (r ≡ ok (yields a t)) × Lists t rest

  abbrev pub Beginning : Outcome (Pull S A) → List A → Type (ℓ ⊔ κ)
  Beginning r [] = Unit
  Beginning r (a ∷ rest) = (t : S) × (r ≡ ok (yields a t)) × Starts t rest

  pub Starts-Beginning : (s : S) (xs : List A) → Beginning (process s) xs → Starts s xs
  Starts-Beginning s [] h = tt
  Starts-Beginning s (x ∷ xs) h = h

  pub Lists-Remaining : (s : S) (xs : List A) → Remaining (process s) xs → Lists s xs
  Lists-Remaining s [] h = h
  Lists-Remaining s (x ∷ xs) h = h

  pub Lists-Starts : (s : S) (xs : List A) → Lists s xs → Starts s xs
  Lists-Starts s [] h = tt
  Lists-Starts s (x ∷ xs) (t, e, h) = (t, e, Lists-Starts t xs h)

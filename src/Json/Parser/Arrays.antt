-- ===== src/Json/Parser/Arrays.antt =====
-- The text of an array, read by the parser.
use oos.Prelude.{
  ℕ, zero, suc, ◌+◌, ◌<◌, ◌≡◌, ◌∙◌, refl, ap, sym, false, [], ◌∷◌, ◌++◌, append_assoc, append-nil,
  arith,
}
use oos.Prelude.Bytes.{Bytes, codes}
use oos.Prelude.Outcome.{ok}
use oos.Json.Value.{Json, Items, array, no_items, item}
use oos.Json.Print.{str, join_items}
use oos.Json.Events.{events, item_events, IsPrintable, need, need_items}
use oos.Json.Scalar.{CLibrary, skip_ws, starts_with, parse_close, ends_number}
use oos.Json.Scalar.Reads.{Stops}
use oos.Json.Parser.{on_parse_array, element_loop, more_elements}
use oos.Json.Parser.Reads.{ReadsValue, skip_ws-str, not_bracket, array-step}

module _ (lib : CLibrary) (real_text : ℕ → Bytes) where
  -- What stands behind an element, up to the bracket.
  abbrev pub tail_items : Items → Bytes
  tail_items no_items = []
  tail_items (item v xs) = codes ", " ++ join_items real_text (item v xs)

  pub join-tail :
      (v : Json) (xs : Items) → join_items real_text (item v xs) ≡ str real_text v ++ tail_items xs
  unfolding str
  join-tail v no_items = sym (append-nil (str real_text v))
  join-tail v (item w xs) =
      append_assoc (str real_text v) (codes ", ") (join_items real_text (item w xs))

  tail-Stops : (xs : Items) (rest : Bytes) → Stops (tail_items xs ++ b']' ∷ rest)
  unfolding ends_number
  tail-Stops no_items rest = refl
  tail-Stops (item v xs) rest = refl

  skip_ws-tail :
      (xs : Items) (rest : Bytes)
      → skip_ws (tail_items xs ++ b']' ∷ rest) ≡ tail_items xs ++ b']' ∷ rest
  unfolding skip_ws
  skip_ws-tail no_items rest = refl
  skip_ws-tail (item v xs) rest = refl

  -- The loop reads what stands behind an element.
  abbrev pub ReadsItems : Items → Type 0
  ReadsItems xs =
      (f : ℕ) (rest : Bytes)
      → need_items xs < f
      → more_elements lib f (tail_items xs ++ b']' ∷ rest) ≡ ok (item_events xs, rest)

  module _ (v : Json) (xs : Items) (reads : ReadsValue lib real_text v)
      (tail_reads : ReadsItems xs) where
    element_loop-Reads :
        (f : ℕ) (s rest : Bytes)
        → need v + need_items xs < f
        → skip_ws s ≡ str real_text v ++ (tail_items xs ++ b']' ∷ rest)
        → element_loop lib (suc f) s ≡ ok (events v ++ item_events xs, rest)
    unfolding element_loop events
    element_loop-Reads f s rest lt e =
        rw
          (
            element_loop,
            reads f s (tail_items xs ++ b']' ∷ rest) (omega (arith, lt)) (tail-Stops xs rest) e,
            skip_ws-tail xs rest,
            tail_reads f rest (omega (arith, lt)),
          )
          refl

    -- What stands behind the first of the elements that are left.
    behind :
        (rest : Bytes)
        → join_items real_text (item v xs) ++ b']' ∷ rest
          ≡ str real_text v ++ (tail_items xs ++ b']' ∷ rest)
    behind rest =
        ap (λ (t : Bytes). t ++ b']' ∷ rest) (join-tail v xs)
        ∙ append_assoc (str real_text v) (tail_items xs) (b']' ∷ rest)

    shown :
        (rest : Bytes)
        → IsPrintable v
        → skip_ws (join_items real_text (item v xs) ++ b']' ∷ rest)
          ≡ str real_text v ++ (tail_items xs ++ b']' ∷ rest)
    shown rest h =
        ap skip_ws (behind rest) ∙ skip_ws-str lib real_text v (tail_items xs ++ b']' ∷ rest) h

    pub item-Reads : IsPrintable v → ReadsItems (item v xs)
    unfolding more_elements events
    item-Reads h zero rest lt = absurd (omega (arith, lt))
    item-Reads h (suc zero) rest lt = absurd (omega (arith, lt))
    item-Reads h (suc (suc f)) rest lt =
        element_loop-Reads f (b' ' ∷ (join_items real_text (item v xs) ++ b']' ∷ rest)) rest
          (omega (arith, lt)) (shown rest h)

    pub array-Reads : IsPrintable v → ReadsValue lib real_text (array (item v xs))
    unfolding str events on_parse_array
    array-Reads h zero s rest lt stops e = absurd (omega (arith, lt))
    array-Reads h (suc zero) s rest lt stops e = absurd (omega (arith, lt))
    array-Reads h (suc (suc zero)) s rest lt stops e = absurd (omega (arith, lt))
    array-Reads h (suc (suc (suc f))) s rest lt stops e =
        let open_text : Bytes = join_items real_text (item v xs) ++ b']' ∷ rest in
        let bracket : starts_with b']' (skip_ws open_text) ≡ false =
          ap (λ (t : Bytes). starts_with b']' t) (shown rest h)
          ∙ not_bracket lib real_text v (tail_items xs ++ b']' ∷ rest) h in
        let read : element_loop lib (suc f) (skip_ws open_text)
            ≡ ok (events v ++ item_events xs, rest) =
          element_loop-Reads f (skip_ws open_text) rest (omega (arith, lt)) (
            ap skip_ws (shown rest h)
            ∙ skip_ws-str lib real_text v (tail_items xs ++ b']' ∷ rest) h) in
        array-step lib real_text (suc (suc f)) s open_text (
          e
          ∙ ap (λ (t : Bytes). b'[' ∷ t)
              (append_assoc (join_items real_text (item v xs)) (b']' ∷ []) rest))
        ∙ rw (on_parse_array, bracket, read) refl

  -- The loop at the closing bracket
  pub no_items-Reads : ReadsItems no_items
  unfolding more_elements parse_close item_events
  no_items-Reads zero rest lt = absurd (omega (arith, lt))
  no_items-Reads (suc f) rest lt = refl

  pub empty_array-Reads : ReadsValue lib real_text (array no_items)
  unfolding str on_parse_array events
  empty_array-Reads zero s rest lt stops e = absurd (omega (arith, lt))
  empty_array-Reads (suc zero) s rest lt stops e = absurd (omega (arith, lt))
  empty_array-Reads (suc (suc f)) s rest lt stops e =
      array-step lib real_text (suc f) s (b']' ∷ rest) e

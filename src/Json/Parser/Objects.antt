-- ===== src/Json/Parser/Objects.antt =====
-- The text of an object, read by the parser.
use oos.Prelude.{ℕ, zero, suc, ◌+◌, ◌<◌, ◌≡◌, ◌∙◌, refl, ap, [], ◌∷◌, ◌++◌, append_assoc, arith}
use oos.Prelude.Bytes.{Bytes, codes}
use oos.Prelude.Outcome.{ok}
use oos.Json.Value.{Json, Fields, object, no_fields, field}
use oos.Json.Print.{str, join_fields}
use oos.Json.Events.{events, field_events, IsPrintable, need, need_fields}
use oos.Json.Scalar.{CLibrary, skip_ws, parse_close, ends_number, parse_json_string}
use oos.Json.Scalar.Reads.{Stops, IsPlain, parse_json_string-plain}
use oos.Json.Parser.{on_parse_object, member_loop, more_members}
use oos.Json.Parser.Reads.{ReadsValue, skip_ws-str, object-step}

parse_json_string-skip :
    (s t : Bytes) → skip_ws s ≡ b'"' ∷ t → parse_json_string s ≡ parse_json_string (b'"' ∷ t)
unfolding parse_json_string
parse_json_string-skip s t e = rw (parse_json_string, e) refl

module _ (lib : CLibrary) (real_text : ℕ → Bytes) where
  -- What stands behind a member, up to the bracket.
  abbrev pub tail_fields : Fields → Bytes
  tail_fields no_fields = []
  tail_fields (field k v fs) = codes ", " ++ join_fields real_text (field k v fs)

  tail-Stops : (fs : Fields) (rest : Bytes) → Stops (tail_fields fs ++ b'}' ∷ rest)
  unfolding ends_number
  tail-Stops no_fields rest = refl
  tail-Stops (field k v fs) rest = refl

  skip_ws-tail :
      (fs : Fields) (rest : Bytes)
      → skip_ws (tail_fields fs ++ b'}' ∷ rest) ≡ tail_fields fs ++ b'}' ∷ rest
  unfolding skip_ws
  skip_ws-tail no_fields rest = refl
  skip_ws-tail (field k v fs) rest = refl

  -- The loop reads what stands behind a member.
  abbrev pub ReadsFields : Fields → Type 0
  ReadsFields fs =
      (f : ℕ) (rest : Bytes)
      → need_fields fs < f
      → more_members lib f (tail_fields fs ++ b'}' ∷ rest) ≡ ok (field_events fs, rest)

  pub join-key :
      (k : Bytes) (v : Json) (fs : Fields) (rest : Bytes)
      → join_fields real_text (field k v fs) ++ b'}' ∷ rest
        ≡ b'"' ∷ (k ++ b'"' ∷ b':' ∷ b' ' ∷ (str real_text v ++ (tail_fields fs ++ b'}' ∷ rest)))
  unfolding str
  join-key k v no_fields rest = simp append_assoc
  join-key k v (field j w fs) rest = simp append_assoc

  module _ (k : Bytes) (v : Json) (fs : Fields) (reads : ReadsValue lib real_text v)
      (tail_reads : ReadsFields fs) where
    -- What stands behind the first quote of the members that are left.
    abbrev from_key : Bytes → Bytes
    from_key rest = k ++ b'"' ∷ b':' ∷ b' ' ∷ (str real_text v ++ (tail_fields fs ++ b'}' ∷ rest))

    member_loop-Reads :
        (f : ℕ) (s rest : Bytes)
        → need v + need_fields fs < f
        → IsPlain k
        → IsPrintable v
        → skip_ws s ≡ b'"' ∷ from_key rest
        → member_loop lib (suc f) s ≡ ok (field_events (field k v fs), rest)
    unfolding member_loop events
    member_loop-Reads f s rest lt plain h e =
        let left : Bytes = str real_text v ++ (tail_fields fs ++ b'}' ∷ rest) in
        rw
          (
            member_loop,
            parse_json_string-skip s (from_key rest) e,
            parse_json_string-plain k (b':' ∷ b' ' ∷ left) plain,
            reads f (b' ' ∷ left) (tail_fields fs ++ b'}' ∷ rest) (omega (arith, lt))
                (tail-Stops fs rest)
                (skip_ws-str lib real_text v (tail_fields fs ++ b'}' ∷ rest) h),
            skip_ws-tail fs rest,
            tail_reads f rest (omega (arith, lt)),
          )
          refl

    pub field-Reads : IsPlain k → IsPrintable v → ReadsFields (field k v fs)
    unfolding more_members skip_ws
    field-Reads plain h zero rest lt = absurd (omega (arith, lt))
    field-Reads plain h (suc zero) rest lt = absurd (omega (arith, lt))
    field-Reads plain h (suc (suc f)) rest lt =
        member_loop-Reads f (b' ' ∷ (join_fields real_text (field k v fs) ++ b'}' ∷ rest)) rest
          (omega (arith, lt)) plain h (ap skip_ws (join-key k v fs rest))

    pub object-Reads : IsPlain k → IsPrintable v → ReadsValue lib real_text (object (field k v fs))
    unfolding str events on_parse_object
    object-Reads plain h zero s rest lt stops e = absurd (omega (arith, lt))
    object-Reads plain h (suc zero) s rest lt stops e = absurd (omega (arith, lt))
    object-Reads plain h (suc (suc zero)) s rest lt stops e = absurd (omega (arith, lt))
    object-Reads plain h (suc (suc (suc f))) s rest lt stops e =
        let open_text : Bytes = b'"' ∷ from_key rest in
        let read : member_loop lib (suc f) open_text ≡ ok (field_events (field k v fs), rest) =
          member_loop-Reads f open_text rest (omega (arith, lt)) plain h refl in
        object-step lib real_text (suc (suc f)) s open_text (
          e
          ∙ ap (λ (t : Bytes). b'{' ∷ t)
              (append_assoc (join_fields real_text (field k v fs)) (b'}' ∷ []) rest
                ∙ join-key k v fs rest))
        ∙ rw (on_parse_object, read) refl

  -- The loop at the closing bracket
  pub no_fields-Reads : ReadsFields no_fields
  unfolding more_members parse_close events
  no_fields-Reads zero rest lt = absurd (omega (arith, lt))
  no_fields-Reads (suc f) rest lt = refl

  pub empty_object-Reads : ReadsValue lib real_text (object no_fields)
  unfolding str on_parse_object events
  empty_object-Reads zero s rest lt stops e = absurd (omega (arith, lt))
  empty_object-Reads (suc zero) s rest lt stops e = absurd (omega (arith, lt))
  empty_object-Reads (suc (suc f)) s rest lt stops e =
      object-step lib real_text (suc f) s (b'}' ∷ rest) e

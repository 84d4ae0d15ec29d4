-- ===== src/Json/Parser/Ending.antt =====
-- The parser ends: the fuel that `parse_json` gives is enough for every text.
use oos.Prelude.{
  ℕ, zero, suc, ◌+◌, ◌*◌, ◌<◌, ◌≤◌, ◌≢◌, List, [], ◌∷◌, length, ◌==◌, if◌then◌else◌, arith,
}
use oos.Prelude.Bytes.{Bytes}
use oos.Prelude.Outcome.{
  ok, thrown, out_of_fuel, ◌>>=◌, Ends, returns, throws, Ends-if, Ends-bind, Ends-weaken,
  Ends-out_of_fuel,
}
use oos.Json.Scalar.{
  CLibrary, Event, on_begin_object, on_end_object, on_begin_array, on_end_array, on_object_key,
  skip_ws, starts_with, parse_scalar, Parsed,
}
use oos.Json.Scalar.Ending.{
  LeavesLess, length-skip_ws, Consumes, parse_json_string-Ends, parse_colon-Ends, parse_close-Ends,
  parse_scalar-Ends,
}
use oos.Json.Parser.{
  then_parse, parse_json_value, on_parse_object, on_parse_array, member_loop, more_members,
  element_loop, more_elements, finish, parse_json,
}

-- A part in front of another, which reads what it leaves.
then_parse-Ends :
    {m n : ℕ} {r : Parsed} {f : Bytes → Parsed}
    → Ends (λ (_, s). length s < m) r
    → ((s : Bytes) → length s < m → LeavesLess n (f s))
    → LeavesLess n (then_parse r f)
then_parse-Ends h k = Ends-bind h (λ (es, s) p. Ends-bind (k s p) (λ (later, rest) q. returns q))

opened-Ends :
    {n : ℕ} {r : Parsed} (e : Event)
    → LeavesLess n r
    → LeavesLess (suc n) (r >>= (λ (es, rest). ok (e ∷ es, rest)))
opened-Ends e h = Ends-bind h (λ (es, rest) p. returns (omega (arith, p)))

module _ (lib : CLibrary) (consumes : Consumes lib) where
  -- The `switch` of a value whose brackets are read by the parsers `opened` and `listed`.
  switch-Ends :
      (opened listed : Bytes → Parsed) (s t : Bytes)
      → length t ≤ length s
      → ((cs : Bytes) → length cs < length s → LeavesLess (suc (length cs)) (opened cs))
      → ((cs : Bytes) → length cs < length s → LeavesLess (suc (length cs)) (listed cs))
      → LeavesLess (length s) (elim t [
        | [] ↦ thrown
        | c ∷ cs ↦
            if c == b'{'
            then opened cs
            else if c == b'['
            then listed cs
            else parse_scalar lib c (c ∷ cs)
      ])
  switch-Ends opened listed s [] le h g = throws
  switch-Ends opened listed s (c ∷ cs) le h g =
      Ends-weaken (λ a p. omega (arith, p, le))
        (Ends-if (c == b'{') (h cs (omega (arith, le)))
          (Ends-if (c == b'[') (g cs (omega (arith, le))) (parse_scalar-Ends lib consumes c cs)))

  mutual
    unfolding parse_json_value

    parse_json_value-Ends :
        (f : ℕ) (s : Bytes) → 4 * length s < f → LeavesLess (length s) (parse_json_value lib f s)
    parse_json_value-Ends zero s h = absurd (omega (arith, h))
    parse_json_value-Ends (suc f) s h =
        switch-Ends (λ cs. on_parse_object lib f cs) (λ cs. on_parse_array lib f cs) s (skip_ws s)
          (length-skip_ws s) (λ cs le. on_parse_object-Ends f cs (omega (arith, le, h)))
          (λ cs le. on_parse_array-Ends f cs (omega (arith, le, h)))

    on_parse_object-Ends :
        (f : ℕ) (s : Bytes)
        → 4 * length s + 2 < f
        → LeavesLess (suc (length s)) (on_parse_object lib f s)
    on_parse_object-Ends zero s h = absurd (omega (arith, h))
    on_parse_object-Ends (suc f) s h =
        Ends-if (starts_with b'}' (skip_ws s))
          (opened-Ends on_begin_object (parse_close-Ends b'}' on_end_object s))
          (opened-Ends on_begin_object (
            Ends-weaken (λ a p. omega (arith, p, length-skip_ws s))
              (member_loop-Ends f (skip_ws s) (omega (arith, h, length-skip_ws s)))))

    on_parse_array-Ends :
        (f : ℕ) (s : Bytes)
        → 4 * length s + 2 < f
        → LeavesLess (suc (length s)) (on_parse_array lib f s)
    on_parse_array-Ends zero s h = absurd (omega (arith, h))
    on_parse_array-Ends (suc f) s h =
        Ends-if (starts_with b']' (skip_ws s))
          (opened-Ends on_begin_array (parse_close-Ends b']' on_end_array s))
          (opened-Ends on_begin_array (
            Ends-weaken (λ a p. omega (arith, p, length-skip_ws s))
              (element_loop-Ends f (skip_ws s) (omega (arith, h, length-skip_ws s)))))

    member_loop-Ends :
        (f : ℕ) (s : Bytes) → 4 * length s + 1 < f → LeavesLess (length s) (member_loop lib f s)
    member_loop-Ends zero s h = absurd (omega (arith, h))
    member_loop-Ends (suc f) s h = Ends-bind (parse_json_string-Ends s) (λ (key, after_key) p.
        Ends-bind (parse_colon-Ends after_key) (λ after_colon q.
          then_parse-Ends {m = length after_key} {n = length s}
            (returns {a = (on_object_key key ∷ [], after_colon)} q)
            (λ at_value i.
              then_parse-Ends {n = length s}
                (parse_json_value-Ends f at_value (omega (arith, h, p, i)))
                (λ after_value j.
                  Ends-weaken (λ a l. omega (arith, p, i, j, l, length-skip_ws after_value))
                    (more_members-Ends f (skip_ws after_value)
                      (omega (arith, h, p, i, j, length-skip_ws after_value)))))))

    more_members-Ends :
        (f : ℕ) (s : Bytes) → 4 * length s < f → LeavesLess (length s) (more_members lib f s)
    more_members-Ends zero s h = absurd (omega (arith, h))
    more_members-Ends (suc f) [] h = throws
    more_members-Ends (suc f) (c ∷ cs) h =
        Ends-if (c == b',')
          (Ends-weaken (λ a p. omega (arith, p)) (member_loop-Ends f cs (omega (arith, h))))
          (parse_close-Ends b'}' on_end_object (c ∷ cs))

    element_loop-Ends :
        (f : ℕ) (s : Bytes) → 4 * length s + 1 < f → LeavesLess (length s) (element_loop lib f s)
    element_loop-Ends zero s h = absurd (omega (arith, h))
    element_loop-Ends (suc f) s h =
        then_parse-Ends {n = length s} (parse_json_value-Ends f s (omega (arith, h)))
          (λ after_value j.
            Ends-weaken (λ a l. omega (arith, j, l, length-skip_ws after_value))
              (more_elements-Ends f (skip_ws after_value)
                (omega (arith, h, j, length-skip_ws after_value))))

    more_elements-Ends :
        (f : ℕ) (s : Bytes) → 4 * length s < f → LeavesLess (length s) (more_elements lib f s)
    more_elements-Ends zero s h = absurd (omega (arith, h))
    more_elements-Ends (suc f) [] h = throws
    more_elements-Ends (suc f) (c ∷ cs) h =
        Ends-if (c == b',')
          (Ends-weaken (λ a p. omega (arith, p)) (element_loop-Ends f cs (omega (arith, h))))
          (parse_close-Ends b']' on_end_array (c ∷ cs))

  finish-Ends : (es : List Event) (rest : Bytes) → Ends (λ _. Unit {0}) (finish lib (es, rest))
  unfolding finish
  finish-Ends es rest = skipped (skip_ws rest)
    where
      skipped : (t : Bytes) → Ends (λ _. Unit {0}) (elim t [ [] ↦ ok es | _ ∷ _ ↦ thrown ])
      skipped [] = returns tt
      skipped (c ∷ cs) = throws

  -- The parse of any text ends with its calls, an exception, or a read behind the text, where each
  -- conversion of a `double` uses a part of the text.
  pub parse_json-ne-out_of_fuel : (s : Bytes) → parse_json lib s ≢ out_of_fuel
  unfolding parse_json
  parse_json-ne-out_of_fuel s = Ends-out_of_fuel (
      Ends-bind (parse_json_value-Ends (4 * length s + 4) s (omega arith))
        (λ (es, rest) p. finish-Ends es rest))

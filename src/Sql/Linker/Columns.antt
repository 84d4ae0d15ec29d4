-- ===== src/Sql/Linker/Columns.antt =====
-- The parts of a statement without conditions, and the placeholders in them.
use oos.Prelude.{
  ◌+◌, ◌≡◌, refl, Bool, true, false, List, [], ◌∷◌, ◌++◌, ◌==◌, if◌then◌else◌, length-append, arith,
}
use oos.Prelude.Bytes.{Bytes, codes}
use oos.Prelude.Int.{pos}
use oos.Json.Print.{integer_text}
use oos.Sql.Dialect.{Dialect, TokenType, prepare_identifier}
use oos.Sql.Syntax.{Operand, and_operand, Value, number, text, Column}
use oos.Sql.Linker.{
  prepared, written, visit_value, visit_values, type_text, visit_column, visit_columns, word,
  word_name, in_brackets, to_string,
}
use oos.Sql.Build.{Build, append_to_result}
use oos.Sql.Linker.HostVars.{
  marks, marks-append, marks-integer_text, IsUnmarked, marks-prepare_identifier, Links, Links-refl,
  Links-trans, Links-plain,
}
use oos.Sql.Linker.Plain.{ValueIsPlain, ColumnsArePlain}

pub marks-written : (v : Value) → ValueIsPlain v → marks (written v) ≡ 0
unfolding written marks
marks-written (number n) h = marks-integer_text n
marks-written (text t) h = omega (arith, h, marks-append t (b'\'' ∷ []))

pub visit_value-Links : (d : Dialect) (v : Value) (b : Build) → Links b (visit_value d prepared v b)
unfolding visit_value marks
visit_value-Links d v b =
    (codes "?", refl, omega (arith, length-append b.host_vars (to_string v ∷ [])))

pub visit_values-Links :
    (d : Dialect) (vs : List Value) (b : Build) → Links b (visit_values d prepared vs b)
unfolding visit_values marks
visit_values-Links d [] b = Links-refl b
visit_values-Links d (v ∷ []) b = visit_value-Links d v b
visit_values-Links d (v ∷ w ∷ vs) b =
    let first : Build = visit_value d prepared v b in
    let behind : Build = append_to_result (codes ", ") first in
    Links-trans b behind (visit_values d prepared (w ∷ vs) behind)
      (Links-trans b first behind (visit_value-Links d v b) (Links-plain (codes ", ") first refl))
      (visit_values-Links d (w ∷ vs) behind)

pub marks-if : (b : Bool) (s t : Bytes) → marks s ≡ 0 → marks t ≡ 0 → marks (if b then s else t) ≡ 0
marks-if true s t h g = h
marks-if false s t h g = g

pub marks-append_zero : (s t : Bytes) → marks s ≡ 0 → marks t ≡ 0 → marks (s ++ t) ≡ 0
marks-append_zero s t h g = omega (arith, marks-append s t, h, g)

pub marks-infix :
    (s o t : Bytes) → marks (s ++ b' ' ∷ (o ++ b' ' ∷ t)) ≡ marks s + marks o + marks t
unfolding marks
marks-infix s o t =
    omega (arith, marks-append s (b' ' ∷ (o ++ b' ' ∷ t)), marks-append o (b' ' ∷ t))

-- A word of a constraint, or nothing
abbrev constraint : Bool → Bytes → Bytes
constraint b t = if b then t else []

pub marks-in_brackets : (op : Operand) (t : Bytes) → marks (in_brackets op t) ≡ marks t
unfolding marks in_brackets
marks-in_brackets and_operand t = omega (arith, marks-append t (b')' ∷ []))
marks-in_brackets _ t = refl

-- A text between two that have no placeholder
pub Links-around :
    (b opened filled : Build) (part : Bytes)
    → Links b opened
    → Links opened filled
    → marks part ≡ 0
    → Links b (append_to_result part filled)
Links-around b opened filled part h g e =
    Links-trans b filled (append_to_result part filled) (Links-trans b opened filled h g)
      (Links-plain part filled e)

module _ (d : Dialect) (unmarked : IsUnmarked d) where
  pub marks-type_text : (col : Column) → marks (type_text d prepared col) ≡ 0
  unfolding type_text marks
  marks-type_text col =
      let unique = constraint col.unique (codes " UNIQUE") in
      let primary = constraint col.primary_key (codes " PRIMARY KEY") in
      let not_null = constraint col.not_null (codes " NOT NULL") in
      let digits_text = integer_text (pos col.size) in
      let size : Bytes = if col.size == 0 then [] else b'(' ∷ (digits_text ++ b')' ∷ []) in
      let size_plain : marks size ≡ 0 =
        marks-if (col.size == 0) [] (b'(' ∷ (digits_text ++ b')' ∷ [])) refl (
          marks-append_zero (b'(' ∷ []) (digits_text ++ b')' ∷ []) refl
            (marks-append_zero digits_text (b')' ∷ []) (marks-integer_text (pos col.size)) refl)) in
      marks-append_zero (b' ' ∷ [])
        (d.type_string col.data_type ++ (size ++ (not_null ++ (primary ++ unique)))) refl
        (marks-append_zero (d.type_string col.data_type) (size ++ (not_null ++ (primary ++ unique)))
          (unmarked.types col.data_type)
          (marks-append_zero size (not_null ++ (primary ++ unique)) size_plain (
            marks-append_zero not_null (primary ++ unique)
              (marks-if col.not_null (codes " NOT NULL") [] refl refl)
              (marks-append_zero primary unique
                (marks-if col.primary_key (codes " PRIMARY KEY") [] refl refl)
                (marks-if col.unique (codes " UNIQUE") [] refl refl)))))

  pub marks-word : (t : TokenType) → marks (word d prepared t) ≡ 0
  unfolding word marks
  marks-word t = omega (arith, marks-append (d.token_at t) (b' ' ∷ []), unmarked.words t)

  pub marks-word_name :
      (t : TokenType) (name : Bytes) → marks name ≡ 0 → marks (word_name d prepared t name) ≡ 0
  unfolding word_name marks
  marks-word_name t name h = omega (
    arith,
    marks-append (word d prepared t) (prepare_identifier d name ++ b' ' ∷ []),
    marks-word t,
    marks-append (prepare_identifier d name) (b' ' ∷ []),
    marks-prepare_identifier d name unmarked h,
  )

  pub Links-if :
      (b later other : Build) (test : Bool)
      → Links b later
      → Links b other
      → Links b (if test then later else other)
  Links-if b later other true h g = h
  Links-if b later other false h g = g

  pub visit_column-Links :
      (col : Column) (b : Build) → marks col.name ≡ 0 → Links b (visit_column d prepared col b)
  unfolding visit_column marks
  visit_column-Links col b h =
      let named : Bytes = if col.with_quotes then prepare_identifier d col.name else col.name in
      let typed : Bytes = if col.with_type then type_text d prepared col else [] in
      let first : Build = append_to_result named b in
      let second : Build = append_to_result typed first in
      let assigned : Build = append_to_result (codes "=") second in
      let shown : Links b second =
        Links-trans b first second
          (Links-plain named b (
            marks-if col.with_quotes (prepare_identifier d col.name) col.name
              (marks-prepare_identifier d col.name unmarked h) h))
          (Links-plain typed first
            (marks-if col.with_type (type_text d prepared col) [] (marks-type_text col) refl)) in
      let valued : Links b (visit_value d prepared col.val assigned) =
        Links-trans b assigned (visit_value d prepared col.val assigned)
          (Links-trans b second assigned shown (Links-plain (codes "=") second refl))
          (visit_value-Links d col.val assigned) in
      Links-if b (visit_value d prepared col.val assigned) second col.with_value valued shown

  pub visit_columns-Links :
      (cols : List Column) (b : Build)
      → ColumnsArePlain cols
      → Links b (visit_columns d prepared cols b)
  unfolding visit_columns marks
  visit_columns-Links [] b h = Links-refl b
  visit_columns-Links (col ∷ []) b (h, _) = visit_column-Links col b h
  visit_columns-Links (col ∷ next ∷ cols) b (h, hs) =
      let first : Build = visit_column d prepared col b in
      let behind : Build = append_to_result (codes ", ") first in
      Links-trans b behind (visit_columns d prepared (next ∷ cols) behind)
        (Links-trans b first behind (visit_column-Links col b h)
          (Links-plain (codes ", ") first refl))
        (visit_columns-Links (next ∷ cols) behind hs)

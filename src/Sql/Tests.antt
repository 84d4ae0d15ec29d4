-- ===== src/Sql/Tests.antt =====
-- Statements.
use oos.Prelude.{◌≡◌, refl, [], ◌∷◌, ◌++◌, some, length, arith}
use oos.Prelude.Bytes.{Bytes, codes}
use oos.Prelude.Int.{pos, negsuc}
use oos.Sql.Dialect.{tokens, Dialect, TokenType, basic_dialect, prepare_identifier, prepare_literal}
use oos.Sql.Dialect.Quotes.{read_quoted, read-prepare_identifier, read-prepare_literal}
use oos.Sql.Syntax.{Operand, Condition, Tokens, no_tokens, token, Token, Value}
use oos.Sql.Linker.{direct, prepare}
use oos.Sql.Build.{Build}
use oos.Sql.Linker.HostVars.{marks, IsUnmarked}
use oos.Sql.Linker.Plain.{TokensArePlain}
use oos.Sql.Linker.Placeholders.{length-prepare}

abbrev dialect : Dialect
dialect = basic_dialect (λ n. codes "INTEGER")

abbrev no_build : Build
no_build = record { host_vars = []; column_names = []; build_info_stack = [] }

abbrev id_is : Value → Condition
id_is v = Condition.column_value (codes "id") Operand.equal v

abbrev select_where : Condition → Tokens
select_where cond =
    token Token.select
      (token (Token.from (codes "person")) (token (Token.where_token cond) no_tokens))

abbrev nested : Tokens
nested = select_where (
    Condition.logical (id_is (Value.number (pos 7)))
      (Condition.column_query (codes "name") Operand.in_list
        (select_where (Condition.column_list (codes "age") (pos 1 ∷ negsuc 1 ∷ []))))
      Operand.and_operand)

direct_inner :
    (direct dialect nested no_build).0
    ≡ codes
        "SELECT FROM \"person\" WHERE (\"id\" = 7 AND \"name\" IN (SELECT FROM \"person\" WHERE \"age\" IN (1,-2) )) "
unfolding direct tokens
direct_inner = refl

prepare_inner : (prepare dialect nested no_build).0 ≡ (
  codes
      "SELECT FROM \"person\" WHERE (\"id\" = ? AND \"name\" IN (SELECT FROM \"person\" WHERE \"age\" IN (?,?) )) ",
  codes "id" ∷ codes "age" ∷ codes "age" ∷ [],
  [],
)
unfolding prepare tokens
prepare_inner = refl

-- A disjunction in a conjunction has no brackets of its own.
direct_or_and :
    (direct dialect
      (select_where (
        Condition.logical
          (Condition.logical
            (id_is (Value.number (pos 1)))
            (id_is (Value.number (pos 2)))
            Operand.or_operand)
          (id_is (Value.number (pos 3)))
          Operand.and_operand))
      no_build).0
    ≡ codes "SELECT FROM \"person\" WHERE (\"id\" = 1 OR \"id\" = 2 AND \"id\" = 3) "
unfolding direct tokens
direct_or_and = refl

-- A quote in the text of a condition is not doubled.
direct_quote :
    (direct dialect (select_where (id_is (Value.text (codes "a'b")))) no_build).0
    ≡ codes "SELECT FROM \"person\" WHERE \"id\" = 'a'b' "
unfolding direct tokens
direct_quote = refl

dialect-IsUnmarked : IsUnmarked dialect
unfolding marks tokens
dialect-IsUnmarked = record {
  words = words;
  opening = omega arith;
  closing = omega arith;
  types = λ n. refl;
}
  where
    words : (t : TokenType) → marks (dialect.token_at t) ≡ 0
    words TokenType.create_table = refl
    words _ = refl

nested-TokensArePlain : TokensArePlain nested
unfolding marks
nested-TokensArePlain = omega arith

length-prepare_example :
    (length (prepare dialect nested no_build).0.1 ≡ marks (prepare dialect nested no_build).0.0)
    × ((prepare dialect nested no_build).1.build_info_stack ≡ [])
length-prepare_example =
    length-prepare dialect dialect-IsUnmarked nested no_build nested-TokensArePlain

read-prepare_identifier_example :
    (s : Bytes) × (prepare_identifier dialect (codes "a\"b") ++ codes " " ≡ b'"' ∷ s)
    × (read_quoted b'"' s ≡ some (codes "a\"b", codes " "))
read-prepare_identifier_example =
    read-prepare_identifier dialect (codes "a\"b") (codes " ") refl (omega arith)

read-prepare_literal_example :
    read_quoted b'\'' (prepare_literal dialect (codes "a'b") ++ b'\'' ∷ codes " ")
    ≡ some (codes "a'b", codes " ")
read-prepare_literal_example = read-prepare_literal dialect (codes "a'b") (codes " ") (omega arith)

-- ===== src/Sql/Syntax.antt =====
-- include/matador/sql/dialect_token.hpp, column.hpp, columns.hpp and condition.hpp: the tokens of a
-- statement. A value is a whole number or a text. A query in a condition or a token is the list of its
-- tokens, and a condition stands in a `where_token`.
use oos.Prelude.{ℕ, Bool, List}
use oos.Prelude.Bytes.{Bytes, codes}
use oos.Prelude.Int.{ℤ}

-- `basic_condition::t_operand`
pub data Operand : Type 0 where
  equal not_equal less less_equal greater greater_equal or_operand and_operand not_operand : Operand
  in_list like : Operand

-- `basic_condition::operands`
unfoldable pub operands : Operand → Bytes
operands equal = codes "="
operands not_equal = codes "<>"
operands less = codes "<"
operands less_equal = codes "<="
operands greater = codes ">"
operands greater_equal = codes ">="
operands or_operand = codes "OR"
operands and_operand = codes "AND"
operands not_operand = codes "NOT"
operands in_list = codes "IN"
operands like = codes "LIKE"

pub data Value : Type 0 where
  number : ℤ → Value
  text : Bytes → Value

-- `build_options` are three flags, and of the attributes the size and the constraints count.
pub record Column : Type 0 where
  pub name : Bytes
  pub with_quotes : Bool
  pub with_type : Bool
  pub with_value : Bool
  pub val : Value
  pub data_type : ℕ
  pub size : ℕ
  pub not_null : Bool
  pub primary_key : Bool
  pub unique : Bool

mutual
  -- A constructor for each of the templates `condition`.
  pub data Condition : Type 0 where
    column_value value_column : Bytes → Operand → Value → Condition
    column_list : Bytes → List ℤ → Condition
    column_query : Bytes → Operand → Tokens → Condition
    column_range : Bytes → ℤ → ℤ → Condition
    logical : Condition → Condition → Operand → Condition
    negated : Condition → Condition

  pub data Token : Type 0 where
    begin commit rollback select distinct update set_token remove asc desc : Token
    create drop_table tablename insert from as_token order_by group_by : Bytes → Token
    top : ℕ → Token
    values : List Value → Token
    columns : Bool → List Column → Token
    column_token : Column → Token
    where_token : Condition → Token
    query : Tokens → Token

  pub data Tokens : Type 0 where
    no_tokens : Tokens
    token : Token → Tokens → Tokens

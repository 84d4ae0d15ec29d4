-- ===== src/Sql/Linker/Plain.antt =====
-- Statements whose names have no question mark in them.
use oos.Prelude.{◌≡◌, List, [], ◌∷◌}
use oos.Sql.Syntax.{
  Value, number, text, Column, Condition, column_value, value_column, column_list, column_query,
  column_range, logical, negated, Token, create, drop_table, tablename, insert, from, as_token,
  order_by, group_by, columns, column_token, where_token, query, Tokens, no_tokens, token,
}
use oos.Sql.Linker.HostVars.{marks}

abbrev pub ValueIsPlain : Value → Type 0
ValueIsPlain (number n) = Unit
ValueIsPlain (text t) = marks t ≡ 0

abbrev pub ColumnsArePlain : List Column → Type 0
ColumnsArePlain [] = Unit
ColumnsArePlain (col ∷ cols) = (marks col.name ≡ 0) × ColumnsArePlain cols

-- No name in a statement has a question mark in it, nor has a text on the left of an operand.
abbrev mutual
  pub ConditionIsPlain : Condition → Type 0
  ConditionIsPlain (column_value name op v) = marks name ≡ 0
  ConditionIsPlain (value_column name op v) = (marks name ≡ 0) × ValueIsPlain v
  ConditionIsPlain (column_list name xs) = marks name ≡ 0
  ConditionIsPlain (column_query name op ts) = (marks name ≡ 0) × TokensArePlain ts
  ConditionIsPlain (column_range name low high) = marks name ≡ 0
  ConditionIsPlain (logical left right op) = ConditionIsPlain left × ConditionIsPlain right
  ConditionIsPlain (negated cond) = ConditionIsPlain cond

  pub TokenIsPlain : Token → Type 0
  TokenIsPlain (create name) = marks name ≡ 0
  TokenIsPlain (drop_table name) = marks name ≡ 0
  TokenIsPlain (tablename name) = marks name ≡ 0
  TokenIsPlain (insert name) = marks name ≡ 0
  TokenIsPlain (from name) = marks name ≡ 0
  TokenIsPlain (as_token name) = marks name ≡ 0
  TokenIsPlain (order_by name) = marks name ≡ 0
  TokenIsPlain (group_by name) = marks name ≡ 0
  TokenIsPlain (columns brackets cols) = ColumnsArePlain cols
  TokenIsPlain (column_token col) = marks col.name ≡ 0
  TokenIsPlain (where_token cond) = ConditionIsPlain cond
  TokenIsPlain (query ts) = TokensArePlain ts
  TokenIsPlain _ = Unit

  pub TokensArePlain : Tokens → Type 0
  TokensArePlain no_tokens = Unit
  TokensArePlain (token t ts) = TokenIsPlain t × TokensArePlain ts

-- ===== src/Sql/Dialect.antt =====
-- src/sql/basic_dialect.cpp with include/matador/sql/basic_dialect.hpp: the words and the quotes of a
-- dialect. A quote is one character, as in each of the backends. The quotes that a backend overrides
-- are fields of `Dialect`; the numbered placeholders of PostgreSQL, which overrides `next_placeholder`,
-- are not modelled.
pub mod Quotes
use oos.Prelude.{ℕ, Bool, List, [], ◌∷◌, ◌++◌, if◌then◌else◌}
use oos.Prelude.Bytes.{Bytes, codes}
use oos.Utils.Strings.{replace_all}

-- `token::t_token`, for the tokens that have a word of their own
pub data TokenType : Type 0 where
  create_table drop_table remove_from insert_into values_list update_table select_from from_table :
      TokenType
  where_condition order_by_column group_by_column ascending descending top_rows as_alias : TokenType
  distinct_rows set_values begin_transaction commit_transaction rollback_transaction : TokenType

-- `tokens`
unfoldable pub tokens : TokenType → Bytes
tokens create_table = codes "CREATE TABLE"
tokens drop_table = codes "DROP TABLE"
tokens remove_from = codes "DELETE"
tokens insert_into = codes "INSERT INTO"
tokens values_list = codes "VALUES"
tokens update_table = codes "UPDATE"
tokens select_from = codes "SELECT"
tokens from_table = codes "FROM"
tokens where_condition = codes "WHERE"
tokens order_by_column = codes "ORDER BY"
tokens group_by_column = codes "GROUP BY"
tokens ascending = codes "ASC"
tokens descending = codes "DESC"
tokens top_rows = codes "LIMIT"
tokens as_alias = codes "AS"
tokens distinct_rows = codes "DISTINCT"
tokens set_values = codes "SET"
tokens begin_transaction = codes "BEGIN TRANSACTION"
tokens commit_transaction = codes "COMMIT TRANSACTION"
tokens rollback_transaction = codes "ROLLBACK TRANSACTION"

pub record Dialect : Type 0 where
  pub token_at : TokenType → Bytes
  pub start_quote : ℕ
  pub end_quote : ℕ
  pub string_quote : ℕ
  -- `identifier_escape_type` is `ESCAPE_CLOSING_BRACKET`
  pub escapes_closing_bracket : Bool
  -- `to_database_type_string` of a number of `data_type`
  pub type_string : ℕ → Bytes

-- The dialect of the table, with quotes that are the same
abbrev pub basic_dialect : (ℕ → Bytes) → Dialect
basic_dialect names = record {
  token_at = tokens;
  start_quote = b'"';
  end_quote = b'"';
  string_quote = b'\'';
  escapes_closing_bracket = Bool.false;
  type_string = names;
}

unfoldable pub escape_quotes_in_identifier : Dialect → Bytes → Bytes
unfolding replace_all
escape_quotes_in_identifier d str =
    if d.escapes_closing_bracket
    then replace_all str (d.end_quote ∷ []) (d.end_quote ∷ d.end_quote ∷ [])
    else replace_all str (d.start_quote ∷ []) (d.start_quote ∷ d.start_quote ∷ [])

unfoldable pub quote_identifier : Dialect → Bytes → Bytes
quote_identifier d str = d.start_quote ∷ (str ++ d.end_quote ∷ [])

unfoldable pub prepare_identifier : Dialect → Bytes → Bytes
unfolding escape_quotes_in_identifier quote_identifier
prepare_identifier d str = quote_identifier d (escape_quotes_in_identifier d str)

-- with `escape_quotes_in_literals`
unfoldable pub prepare_literal : Dialect → Bytes → Bytes
unfolding replace_all
prepare_literal d str = replace_all str (d.string_quote ∷ []) (d.string_quote ∷ d.string_quote ∷ [])

unfoldable pub next_placeholder : Bytes
next_placeholder = codes "?"

-- ===== src/Sql/Linker.antt =====
-- src/sql/basic_dialect_linker.cpp, `evaluate` of include/matador/sql/condition.hpp, with the
-- `build`s of src/sql/basic_dialect.cpp. The basic compiler, which MySQL uses, leaves the tokens as they
-- are. `compile_type_`, which `build` sets, is an argument.
pub mod HostVars
pub mod Plain
pub mod Columns
pub mod Placeholders
use oos.Prelude.{ℕ, zero, suc, Bool, true, false, List, [], ◌∷◌, ◌++◌, ◌==◌, if◌then◌else◌}
use oos.Prelude.Bytes.{Bytes, codes}
use oos.Prelude.Int.{ℤ, pos}
use oos.Json.Print.{integer_text}
use oos.Sql.Dialect.{
  Dialect, TokenType, create_table, remove_from, insert_into, values_list, update_table,
  select_from, from_table, where_condition, order_by_column, group_by_column, ascending, descending,
  top_rows, as_alias, distinct_rows, set_values, begin_transaction, commit_transaction,
  rollback_transaction, prepare_identifier, prepare_literal, next_placeholder,
}
use oos.Sql.Dialect as Dialects
use oos.Sql.Build.{
  Build, append_top, append_to_result, add_host_var, add_column, add_host_vars, push, pop,
  top_result, finished,
}
use oos.Sql.Syntax.{
  Operand, operands, and_operand, not_operand, Value, number, text, Column, Condition, column_value,
  value_column, column_list, column_query, column_range, logical, negated, Token, begin, commit,
  rollback, select, distinct, update, set_token, remove, asc, desc, create, drop_table, tablename,
  insert, from, as_token, order_by, group_by, top, values, columns, column_token, where_token,
  query, Tokens, no_tokens, token,
}

pub data CompileType : Type 0 where
  prepared direct_execute : CompileType

-- The brackets round two conditions that are joined by AND
unfoldable pub in_brackets : Operand → Bytes → Bytes
in_brackets and_operand t = b'(' ∷ (t ++ b')' ∷ [])
in_brackets _ t = t

-- The placeholder of a prepared statement, or the text itself.
unfoldable pub placed : CompileType → Bytes → Bytes
unfolding next_placeholder
placed prepared t = next_placeholder
placed direct_execute t = t

-- A value as `operator<<` writes it into a condition, a text between single quotes
unfoldable pub written : Value → Bytes
unfolding integer_text
written (number n) = integer_text n
written (text t) = b'\'' ∷ (t ++ b'\'' ∷ [])

unfoldable pub list_text : CompileType → List ℤ → Bytes
unfolding placed integer_text
list_text ct [] = []
list_text ct (x ∷ []) = placed ct (integer_text x)
list_text ct (x ∷ y ∷ xs) = placed ct (integer_text x) ++ b',' ∷ list_text ct (y ∷ xs)

-- `to_string` and `to_safe_string` of `value_to_string_processor`
unfoldable pub to_string : Value → Bytes
unfolding integer_text
to_string (number n) = integer_text n
to_string (text t) = b'\'' ∷ (t ++ b'\'' ∷ [])

module _ (d : Dialect) (ct : CompileType) where
  unfoldable pub to_safe_string : Value → Bytes
  unfolding integer_text prepare_literal
  to_safe_string (number n) = integer_text n
  to_safe_string (text t) = b'\'' ∷ (prepare_literal d t ++ b'\'' ∷ [])

  unfoldable pub visit_value : Value → Build → Build
  unfolding append_to_result add_host_var to_safe_string to_string next_placeholder
  visit_value v b = elim ct [
    | direct_execute ↦ append_to_result (to_safe_string v) b
    | prepared ↦ append_to_result next_placeholder (add_host_var (to_string v) b)
  ]

  unfoldable pub visit_values : List Value → Build → Build
  unfolding visit_value append_to_result
  visit_values [] b = b
  visit_values (v ∷ []) b = visit_value v b
  visit_values (v ∷ w ∷ vs) b =
      visit_values (w ∷ vs) (append_to_result (codes ", ") (visit_value v b))

  -- The type of a column with its size and its constraints
  unfoldable pub type_text : Column → Bytes
  unfolding integer_text
  type_text col =
      b' '
      ∷ (d.type_string col.data_type
          ++ ((if col.size == 0 then [] else b'(' ∷ (integer_text (pos col.size) ++ b')' ∷ []))
              ++ ((if col.not_null then codes " NOT NULL" else [])
                  ++ ((if col.primary_key then codes " PRIMARY KEY" else [])
                      ++ (if col.unique then codes " UNIQUE" else [])))))

  unfoldable pub visit_column : Column → Build → Build
  unfolding append_to_result visit_value type_text prepare_identifier add_column
  visit_column col b =
      let named = if col.with_quotes then prepare_identifier d col.name else col.name in
      let typed = if col.with_type then type_text col else [] in
      let later = append_to_result typed (append_to_result named b) in
      let valued =
        if col.with_value
        then visit_value col.val (append_to_result (codes "=") later)
        else later in
      add_column col.name valued

  unfoldable pub visit_columns : List Column → Build → Build
  unfolding visit_column append_to_result
  visit_columns [] b = b
  visit_columns (col ∷ []) b = visit_column col b
  visit_columns (col ∷ next ∷ cols) b =
      visit_columns (next ∷ cols) (append_to_result (codes ", ") (visit_column col b))

  -- A word, and a word with a name, each with a space behind it
  unfoldable pub word : TokenType → Bytes
  word t = d.token_at t ++ b' ' ∷ []

  unfoldable pub word_name : TokenType → Bytes → Bytes
  unfolding prepare_identifier word
  word_name t name = word t ++ (prepare_identifier d name ++ b' ' ∷ [])

  unfoldable mutual
    unfolding append_to_result add_host_var add_host_vars placed written list_text
        prepare_identifier operands in_brackets push finished word word_name visit_values
        visit_column visit_columns integer_text

    -- The text of a condition, with the host variables that it adds.
    pub evaluate : Condition → Build → Bytes × Build
    evaluate (column_value name op v) b = (
      prepare_identifier d name ++ b' ' ∷ (operands op ++ b' ' ∷ placed ct (written v)),
      add_host_var name b,
    )
    evaluate (value_column name op v) b =
        (written v ++ b' ' ∷ (operands op ++ b' ' ∷ prepare_identifier d name), b)
    evaluate (column_list name xs) b = (
      prepare_identifier d name ++ (codes " IN (" ++ (list_text ct xs ++ b')' ∷ [])),
      add_host_vars name xs b,
    )
    evaluate (column_query name op ts) b =
        let (inner, later) = finished (link ts (push b)) in
        (
          prepare_identifier d name ++ b' ' ∷ (operands op ++ (codes " (" ++ (inner ++ b')' ∷ []))),
          later,
        )
    evaluate (column_range name low high) b = (
      prepare_identifier d name
          ++ (codes " BETWEEN "
              ++ (placed ct (integer_text low)
                  ++ (codes " AND " ++ placed ct (integer_text high)))),
      add_host_var name (add_host_var name b),
    )
    evaluate (logical left right op) b =
        let (cl, later) = evaluate left b in
        let (cr, last) = evaluate right later in
        let joined = cl ++ b' ' ∷ (operands op ++ b' ' ∷ cr) in (in_brackets op joined, last)
    evaluate (negated cond) b =
        let (t, later) = evaluate cond b in
        (operands not_operand ++ (codes " (" ++ (t ++ b')' ∷ [])), later)

    pub visit : Token → Build → Build
    visit begin b = append_to_result (word begin_transaction) b
    visit commit b = append_to_result (word commit_transaction) b
    visit rollback b = append_to_result (word rollback_transaction) b
    visit (query ts) b =
        let (inner, later) = finished (link ts (push (append_to_result (codes "(") b))) in
        append_to_result (codes ") ") (append_to_result inner later)
    visit (create name) b = append_to_result (word_name create_table name) b
    visit (drop_table name) b = append_to_result (word_name Dialects.drop_table name) b
    visit select b = append_to_result (word select_from) b
    visit distinct b = append_to_result (word distinct_rows) b
    visit update b = append_to_result (word update_table) b
    visit (tablename name) b = append_to_result (prepare_identifier d name ++ b' ' ∷ []) b
    visit set_token b = append_to_result (word set_values) b
    visit (as_token name) b = append_to_result (word as_alias ++ (name ++ b' ' ∷ [])) b
    visit (top limit) b =
        append_to_result (word top_rows ++ (integer_text (pos limit) ++ b' ' ∷ [])) b
    visit remove b = append_to_result (word remove_from) b
    visit (values vs) b =
        append_to_result (codes ") ")
          (visit_values vs (append_to_result (word values_list ++ b'(' ∷ []) b))
    visit (order_by name) b = append_to_result (word_name order_by_column name) b
    visit asc b = append_to_result (word ascending) b
    visit desc b = append_to_result (word descending) b
    visit (group_by name) b = append_to_result (word_name group_by_column name) b
    visit (insert name) b = append_to_result (word_name insert_into name) b
    visit (from []) b = append_to_result (word from_table) b
    visit (from (c ∷ name)) b = append_to_result (word_name from_table (c ∷ name)) b
    visit (where_token cond) b =
        let (t, later) = evaluate cond (append_to_result (word where_condition) b) in
        append_to_result (codes " ") (append_to_result t later)
    visit (column_token col) b = visit_column col b
    visit (columns with_brackets cols) b =
        let opened = append_to_result (if with_brackets then codes "(" else []) b in
        append_to_result (codes " ")
          (append_to_result (if with_brackets then codes ")" else []) (visit_columns cols opened))

    pub link : Tokens → Build → Build
    link no_tokens b = b
    link (token t ts) b = link ts (visit t b)

  unfoldable pub continue_build : Tokens → Build → Bytes × Build
  unfolding link finished push
  continue_build ts b = finished (link ts (push b))

  -- `build` of a statement, which forgets the host variables and columns of the one before
  unfoldable pub build : Tokens → Build → Bytes × Build
  unfolding continue_build
  build ts b = continue_build ts (record b { host_vars = []; column_names = [] })

-- `direct` and `prepare`, the latter with its host variables and columns
unfoldable pub direct : Dialect → Tokens → Build → Bytes × Build
unfolding build
direct d ts b = build d direct_execute ts b

unfoldable pub prepare : Dialect → Tokens → Build → (Bytes × List Bytes × List Bytes) × Build
unfolding build
prepare d ts b =
    let (sql, later) = build d prepared ts b in ((sql, later.host_vars, later.column_names), later)

-- ===== src/Sql/Query.antt =====
-- src/sql/basic_query.cpp and include/matador/sql/query.hpp: a query for rows, which is built by calls
-- one after the other. `none` is the exception of `throw_invalid`. The serializers of typed objects
-- and the connection that executes a query are left out.
pub mod Order
pub mod GroupBy
use oos.Prelude.{
  ℕ, zero, suc, Bool, true, false, List, [], ◌∷◌, ◌++◌, map, ◌||◌, Option, none, some,
  if◌then◌else◌,
}
use oos.Prelude.Bytes.{Bytes, equal}
use oos.Prelude.Int.{pos}
use oos.Prelude.Fallible.{◌>>=◌}
use oos.Sql.QueryState.{
  State, query_begin, query_create, query_drop, query_select, query_insert, query_update,
  query_delete, query_column, query_set, query_from, query_where, query_values, query_cond_where,
  query_orderby, query_order_direction, query_groupby, is_valid,
}
use oos.Sql.Syntax.{Value, Column, Condition, Token, Tokens, no_tokens, token}

-- `t_query_command`
pub data Command : Type 0 where
  unknown create_command drop_command insert_command update_command remove_command select_command :
      Command

-- `sql_` with its table and command, the state, `update_columns_`, and the columns of `obj_`, the row
-- that a result is read into
pub record Query : Type 0 where
  pub token_list : Tokens
  pub table_name : Bytes
  pub command : Command
  pub state : State
  pub update_columns : List Column
  pub row_columns : List Bytes

unfoldable pub push_back : Tokens → Token → Tokens
push_back no_tokens t = token t no_tokens
push_back (token s ts) t = token s (push_back ts t)

-- `sql_.append`
unfoldable pub append : Token → Query → Query
unfolding push_back
append t q = record q { token_list = push_back q.token_list t }

unfoldable pub reset_query : Command → Query → Query
reset_query c q = record q {
  token_list = no_tokens;
  table_name = [];
  command = c;
  state = query_begin;
  update_columns = [];
}

-- A default column of a name, one for `create`, one with a value, and one of `make_column`
unfoldable pub named_column : Bytes → Column
named_column s = record {
  name = s;
  with_quotes = true;
  with_type = false;
  with_value = false;
  val = Value.text [];
  data_type = 0;
  size = 0;
  not_null = false;
  primary_key = false;
  unique = false;
}

unfoldable pub typed_column : Column → Column
typed_column col = record col { with_type = true; with_quotes = true; with_value = false }

unfoldable pub value_column : Bytes × Value → Column
unfolding named_column
value_column (s, v) = record (named_column s) { val = v; with_value = true }

-- `row::add_column`
unfoldable pub has_column : Bytes → List Bytes → Bool
has_column s [] = false
has_column s (t ∷ names) = equal s t || has_column s names

unfoldable pub add_column : List Bytes → Bytes → List Bytes
unfolding has_column
add_column names s = if has_column s names then names else names ++ s ∷ []

unfoldable pub prepare_select_prototype : List Bytes → List Bytes → List Bytes
unfolding add_column
prepare_select_prototype names [] = names
prepare_select_prototype names (s ∷ more) = prepare_select_prototype (add_column names s) more

-- The calls of a query
pub data Call : Type 0 where
  create : Bytes → List Column → Call
  drop_table remove from order_by group_by as_alias : Bytes → Call
  insert : Bytes → List Bytes → Call
  values : List Value → Call
  select : List Bytes → Call
  update : Bytes → List (Bytes × Value) → Call
  from_query : Tokens → Call
  where_condition : Condition → Call
  asc desc : Call
  limit : ℕ → Call
  column : Bytes → ℕ → Call

-- A call that goes on with the query, behind its `throw_invalid`.
unfoldable pub go_on : State → Token → Query → Option Query
unfolding append is_valid
go_on next t q = if is_valid next q.state then some (record (append t q) { state = next }) else none

unfoldable pub call : Call → Query → Option Query
unfolding append is_valid reset_query named_column typed_column value_column
    prepare_select_prototype go_on
call (create name cols) q =
    let started = append (Token.create name) (reset_query create_command q) in
    some (record (append (Token.columns true (map typed_column cols)) started) {
      table_name = name;
      state = query_create;
    })
call (drop_table name) q =
    some (record (append (Token.drop_table name) (reset_query drop_command q)) {
      table_name = name;
      state = query_drop;
    })
call (insert name names) q =
    let started = append (Token.insert name) (reset_query insert_command q) in
    some (record (append (Token.columns true (map named_column names)) started) {
      table_name = name;
      state = query_insert;
    })
call (values vs) q = go_on query_values (Token.values vs) q
call (select names) q =
    let started = append Token.select (reset_query select_command q) in
    some (record (append (Token.columns false (map named_column names)) started) {
      row_columns = prepare_select_prototype q.row_columns names;
      state = query_select;
    })
call (update name pairs) q =
    let started = append Token.update (reset_query update_command q) in
    let set_columns = append Token.set_token (append (Token.tablename name) started) in
    let cols = map value_column pairs in
    some (record (append (Token.columns false cols) set_columns) {
      table_name = name;
      update_columns = cols;
      state = query_set;
    })
call (from name) q =
    if is_valid query_from q.state
    then some (record (append (Token.from name) q) { table_name = name })
    else none
call (from_query ts) q =
    if is_valid query_from q.state
    then some (append (Token.query ts) (append (Token.from []) q))
    else none
call (remove name) q =
    some (record (append (Token.from name) (append Token.remove (reset_query remove_command q))) {
      table_name = name;
      state = query_delete;
    })
call (where_condition cond) q = go_on query_cond_where (Token.where_token cond) q
call (order_by name) q = go_on query_orderby (Token.order_by name) q
call asc q = go_on query_order_direction Token.asc q
call desc q = go_on query_order_direction Token.desc q
call (limit n) q = some (append (Token.top n) q)
call (as_alias name) q = some (append (Token.as_token name) q)
call (group_by name) q = go_on query_groupby (Token.group_by name) q
call (column name data_type) q =
    let col = record (named_column name) { with_type = true; data_type = data_type } in
    go_on query_column (Token.column_token col) q

-- `query()`
abbrev pub no_query : Query
no_query = record {
  token_list = no_tokens;
  table_name = [];
  command = unknown;
  state = query_begin;
  update_columns = [];
  row_columns = [];
}

-- The calls in a row
unfoldable pub run : List Call → Query → Option Query
unfolding call
run [] q = some q
run (c ∷ cs) q = call c q >>= λ later. run cs later

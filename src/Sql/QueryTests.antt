-- ===== src/Sql/QueryTests.antt =====
-- Queries built by calls.
use oos.Prelude.{◌≡◌, ◌≢◌, Bool, refl, List, [], ◌∷◌, ◌++◌, map, Option, none, some}
use oos.Prelude.Bytes.{Bytes, codes}
use oos.Prelude.Int.{pos}
use oos.Sql.Dialect.{basic_dialect, tokens}
use oos.Sql.Syntax.{Operand, Condition, no_tokens, token, Token, Value}
use oos.Sql.Linker.{direct}
use oos.Sql.Query.{
  Command, Query, Call, select, from, where_condition, order_by, asc, limit, group_by, run,
  no_query, named_column,
}
use oos.Sql.QueryState.{State}
use oos.Sql.Query.Order.{IsOrdered, run-IsOrdered}
use oos.Sql.Query.GroupBy.{run-group_by}

abbrev ids : List Bytes
ids = codes "id" ∷ []

abbrev adults : Condition
adults = Condition.column_value (codes "age") Operand.greater (Value.number (pos 17))

abbrev sorted : List Call
sorted =
    select ids
    ∷ from (codes "person")
    ∷ where_condition adults
    ∷ order_by (codes "id")
    ∷ asc
    ∷ limit 3
    ∷ []

abbrev sorted_query : Query
sorted_query = record {
  token_list = token Token.select (
      token (Token.columns Bool.false (map named_column ids)) (
        token (Token.from (codes "person")) (
          token (Token.where_token adults) (
            token (Token.order_by (codes "id"))
              (token Token.asc (token (Token.top 3) no_tokens))))));
  table_name = codes "person";
  command = Command.select_command;
  state = State.query_order_direction;
  update_columns = [];
  row_columns = ids;
}

run_in_order : run sorted no_query ≡ some sorted_query
unfolding run
run_in_order = refl

direct_in_order :
    (direct
      (basic_dialect (λ n. []))
      sorted_query.token_list
      (record { host_vars = []; column_names = []; build_info_stack = [] })).0
    ≡ codes "SELECT \"id\" FROM \"person\" WHERE \"age\" > 17 ORDER BY \"id\" ASC LIMIT 3 "
unfolding direct tokens named_column
direct_in_order = refl

-- A condition behind an ORDER BY is refused.
run_late_where : run (sorted ++ where_condition adults ∷ []) no_query ≡ none
unfolding run
run_late_where = refl

-- The state stays that of `select` behind a `from`, so that another one is accepted.
abbrev from_twice : Option Query
from_twice = run (select ids ∷ from (codes "a") ∷ from (codes "b") ∷ []) no_query

run_from_twice : from_twice ≢ none
unfolding run
run_from_twice = cc

run-IsOrdered_example : IsOrdered sorted_query.token_list
run-IsOrdered_example = run-IsOrdered sorted sorted_query run_in_order

run-group_by_example : run (select ids ∷ group_by (codes "id") ∷ limit 1 ∷ []) no_query ≡ none
run-group_by_example = run-group_by (select ids ∷ []) (limit 1 ∷ []) (codes "id") no_query

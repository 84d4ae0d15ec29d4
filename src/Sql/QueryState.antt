-- ===== src/Sql/QueryState.antt =====
-- src/sql/basic_query.cpp: the states of a query and which may follow which.
use oos.Prelude.{Bool, true, false}

-- `state_t`
pub data State : Type 0 where
  query_begin query_create query_drop query_select query_insert query_update query_delete : State
  query_column query_set query_from query_where query_values query_cond_where query_orderby : State
  query_order_direction query_groupby : State

-- The states that a condition, an order, a column or a value may follow.
unfoldable pub may_filter : State → Bool
may_filter query_select = true
may_filter query_column = true
may_filter query_update = true
may_filter query_set = true
may_filter query_delete = true
may_filter query_from = true
may_filter query_cond_where = true
may_filter _ = false

unfoldable pub may_order : State → Bool
may_order query_select = true
may_order query_where = true
may_order query_from = true
may_order query_cond_where = true
may_order _ = false

abbrev pub is_begin : State → Bool
is_begin query_begin = true
is_begin _ = false

abbrev pub is_select : State → Bool
is_select query_select = true
is_select _ = false

abbrev pub is_insert : State → Bool
is_insert query_insert = true
is_insert _ = false

abbrev pub is_orderby : State → Bool
is_orderby query_orderby = true
is_orderby _ = false

unfoldable pub may_list : State → Bool
may_list query_select = true
may_list query_column = true
may_list _ = false

unfoldable pub may_set : State → Bool
may_set query_update = true
may_set query_set = true
may_set _ = false

-- `throw_invalid(next, current)` returns.
unfoldable pub is_valid : State → State → Bool
unfolding may_filter may_order may_list may_set
is_valid query_create current = is_begin current
is_valid query_drop current = is_begin current
is_valid query_select current = is_begin current
is_valid query_insert current = is_begin current
is_valid query_update current = is_begin current
is_valid query_delete current = is_begin current
is_valid query_values current = is_insert current
is_valid query_where current = may_filter current
is_valid query_cond_where current = may_filter current
is_valid query_column current = may_list current
is_valid query_from current = is_select current
is_valid query_set current = may_set current
is_valid query_orderby current = may_order current
is_valid query_order_direction current = is_orderby current
is_valid _ current = false

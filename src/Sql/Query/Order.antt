-- ===== src/Sql/Query/Order.antt =====
-- The order of the parts of a statement.
use mathlib.Core.Path.{subst}
use oos.Prelude.{
  ◌≡◌, refl, Bool, true, false, List, [], ◌∷◌, Option, none, some, if◌then◌else◌, arith,
}
use oos.Prelude.Bytes.{Bytes}
use oos.Prelude.Fallible.{◌>>=◌}
use oos.Sql.Syntax.{Token, Tokens, no_tokens, token}
use oos.Sql.Query.{
  Query, push_back, append, Call, create, drop_table, remove, from, order_by, group_by, as_alias,
  insert, values, select, update, from_query, where_condition, asc, desc, limit, column, go_on,
  call, run, no_query,
}
use oos.Sql.QueryState.{
  State, query_begin, query_orderby, query_order_direction, may_filter, may_order, may_list,
  is_insert, is_select, is_orderby, is_valid,
}

abbrev pub is_order : Token → Bool
is_order (Token.order_by name) = true
is_order _ = false

-- A direction, a limit or an alias
abbrev pub is_tail : Token → Bool
is_tail Token.asc = true
is_tail Token.desc = true
is_tail (Token.top n) = true
is_tail (Token.as_token name) = true
is_tail _ = false

abbrev pub Follows : Tokens → Type 0
Follows no_tokens = Unit
Follows (token t ts) = (is_tail t ≡ true) × Follows ts

-- Behind an ORDER BY stand a direction, limits and aliases only.
abbrev pub IsOrdered : Tokens → Type 0
IsOrdered no_tokens = Unit
IsOrdered (token t ts) = (is_order t ≡ true → Follows ts) × IsOrdered ts

abbrev LacksOrder : Tokens → Type 0
LacksOrder no_tokens = Unit
LacksOrder (token t ts) = (is_order t ≡ false) × LacksOrder ts

Follows-push : (ts : Tokens) (t : Token) → Follows ts → is_tail t ≡ true → Follows (push_back ts t)
unfolding push_back
Follows-push no_tokens t h g = (g, tt)
Follows-push (token s ts) t (h, hs) g = (h, Follows-push ts t hs g)

LacksOrder-push :
    (ts : Tokens) (t : Token) → LacksOrder ts → is_order t ≡ false → LacksOrder (push_back ts t)
unfolding push_back
LacksOrder-push no_tokens t h g = (g, tt)
LacksOrder-push (token s ts) t (h, hs) g = (h, LacksOrder-push ts t hs g)

IsOrdered-push_tail :
    (ts : Tokens) (t : Token) → IsOrdered ts → is_tail t ≡ true → IsOrdered (push_back ts t)
unfolding push_back
IsOrdered-push_tail no_tokens t h g = (λ e. tt, tt)
IsOrdered-push_tail (token s ts) t (h, hs) g =
    (λ e. Follows-push ts t (h e) g, IsOrdered-push_tail ts t hs g)

IsOrdered-push : (ts : Tokens) (t : Token) → LacksOrder ts → IsOrdered (push_back ts t)
unfolding push_back
IsOrdered-push no_tokens t h = (λ e. tt, tt)
IsOrdered-push (token s ts) t (h, hs) = (λ e. cc, IsOrdered-push ts t hs)

-- The states behind an ORDER BY
abbrev has_order : State → Bool
has_order query_orderby = true
has_order query_order_direction = true
has_order _ = false

-- An ORDER BY is there in such a state only.
record IsValid (q : Query) : Type 0 where
  ordered : IsOrdered q.token_list
  lacks : has_order q.state ≡ false → LacksOrder q.token_list

abbrev Returns : Option Query → Type 0
Returns none = Unit
Returns (some q) = IsValid q

Returns-if : (b : Bool) (q : Query) → (b ≡ true → IsValid q) → Returns (if b then some q else none)
Returns-if true q h = h refl
Returns-if false q h = tt

may_filter-has_order : (s : State) → may_filter s ≡ true → has_order s ≡ false
unfolding may_filter
may_filter-has_order query_begin h = refl
may_filter-has_order _ h = ground (arith, h)

may_order-has_order : (s : State) → may_order s ≡ true → has_order s ≡ false
unfolding may_order
may_order-has_order query_begin h = refl
may_order-has_order _ h = ground (arith, h)

may_list-has_order : (s : State) → may_list s ≡ true → has_order s ≡ false
unfolding may_list
may_list-has_order query_begin h = refl
may_list-has_order _ h = ground (arith, h)

is_select-has_order : (s : State) → is_select s ≡ true → has_order s ≡ false
is_select-has_order query_begin h = refl
is_select-has_order _ h = ground (arith, h)

is_insert-has_order : (s : State) → is_insert s ≡ true → has_order s ≡ false
is_insert-has_order query_begin h = refl
is_insert-has_order _ h = ground (arith, h)

LacksOrder-IsOrdered : (ts : Tokens) → LacksOrder ts → IsOrdered ts
LacksOrder-IsOrdered no_tokens h = tt
LacksOrder-IsOrdered (token t ts) (h, hs) = (λ e. cc, LacksOrder-IsOrdered ts hs)

without_order : (q : Query) → LacksOrder q.token_list → IsValid q
without_order q h = record { ordered = LacksOrder-IsOrdered q.token_list h; lacks = λ e. h }

module _ (q : Query) (v : IsValid q) where
  -- A part that is no ORDER BY, behind states that have none
  go_on-plain :
      (next : State) (t : Token)
      → (is_valid next q.state ≡ true → has_order q.state ≡ false)
      → is_order t ≡ false
      → Returns (go_on next t q)
  unfolding go_on append
  go_on-plain next t h g =
      Returns-if (is_valid next q.state) (record (append t q) { state = next })
        (λ e. record {
          ordered = IsOrdered-push q.token_list t (v.lacks (h e));
          lacks = λ d. LacksOrder-push q.token_list t (v.lacks (h e)) g;
        })

  go_on-order_by : (name : Bytes) → Returns (go_on query_orderby (Token.order_by name) q)
  unfolding go_on append is_valid
  go_on-order_by name =
      Returns-if (may_order q.state)
        (record (append (Token.order_by name) q) { state = query_orderby })
        (λ e. record {
          ordered =
              IsOrdered-push q.token_list (Token.order_by name)
                (v.lacks (may_order-has_order q.state e));
          lacks = λ d. cc;
        })

  go_on-direction : (t : Token) → is_tail t ≡ true → Returns (go_on query_order_direction t q)
  unfolding go_on append is_valid
  go_on-direction t g =
      Returns-if (is_orderby q.state) (record (append t q) { state = query_order_direction })
        (λ e. record { ordered = IsOrdered-push_tail q.token_list t v.ordered g; lacks = λ d. cc })

  append-tail : (t : Token) → is_tail t ≡ true → is_order t ≡ false → IsValid (append t q)
  unfolding append
  append-tail t g d = record {
    ordered = IsOrdered-push_tail q.token_list t v.ordered g;
    lacks = λ e. LacksOrder-push q.token_list t (v.lacks e) d;
  }

  from-IsValid : (name : Bytes) → Returns (call (from name) q)
  unfolding call append is_valid
  from-IsValid name =
      Returns-if (is_select q.state) (record (append (Token.from name) q) { table_name = name })
        (λ e.
          let none_yet : LacksOrder q.token_list = v.lacks (is_select-has_order q.state e) in
          without_order _ (LacksOrder-push q.token_list (Token.from name) none_yet refl))

  from_query-IsValid : (ts : Tokens) → Returns (call (from_query ts) q)
  unfolding call append is_valid
  from_query-IsValid ts =
      Returns-if (is_select q.state) (append (Token.query ts) (append (Token.from []) q)) (λ e.
        let none_yet : LacksOrder q.token_list = v.lacks (is_select-has_order q.state e) in
        without_order _ (
          LacksOrder-push (push_back q.token_list (Token.from [])) (Token.query ts)
            (LacksOrder-push q.token_list (Token.from []) none_yet refl) refl))

  call-IsValid : (c : Call) → Returns (call c q)
  unfolding call push_back
  call-IsValid (create name cols) = without_order _ (refl, (refl, tt))
  call-IsValid (drop_table name) = without_order _ (refl, tt)
  call-IsValid (remove name) = without_order _ (refl, (refl, tt))
  call-IsValid (from name) = from-IsValid name
  call-IsValid (order_by name) = go_on-order_by name
  call-IsValid (group_by name) = tt
  call-IsValid (as_alias name) = append-tail (Token.as_token name) refl refl
  call-IsValid (insert name names) = without_order _ (refl, (refl, tt))
  call-IsValid (values vs) =
      go_on-plain State.query_values (Token.values vs) (λ e. is_insert-has_order q.state e) refl
  call-IsValid (select names) = without_order _ (refl, (refl, tt))
  call-IsValid (update name pairs) = without_order _ (refl, (refl, (refl, (refl, tt))))
  call-IsValid (from_query ts) = from_query-IsValid ts
  call-IsValid (where_condition cond) =
      go_on-plain State.query_cond_where (Token.where_token cond)
        (λ e. may_filter-has_order q.state e) refl
  call-IsValid asc = go_on-direction Token.asc refl
  call-IsValid desc = go_on-direction Token.desc refl
  call-IsValid (limit n) = append-tail (Token.top n) refl refl
  call-IsValid (column name n) =
      go_on-plain State.query_column (Token.column_token _) (λ e. may_list-has_order q.state e) refl

Returns-bind :
    (o : Option Query) (f : Query → Option Query)
    → Returns o
    → ((q : Query) → IsValid q → Returns (f q))
    → Returns (o >>= f)
Returns-bind none f h k = tt
Returns-bind (some q) f h k = k q h

run-IsValid : (cs : List Call) (q : Query) → IsValid q → Returns (run cs q)
unfolding run
run-IsValid [] q v = v
run-IsValid (c ∷ cs) q v =
    Returns-bind (call c q) (λ later. run cs later) (call-IsValid q v c)
      (λ later w. run-IsValid cs later w)

-- Whatever calls build a statement, nothing but a direction, limits and aliases stands behind an ORDER
-- BY in it.
pub run-IsOrdered :
    (cs : List Call) (later : Query) → run cs no_query ≡ some later → IsOrdered later.token_list
run-IsOrdered cs later e =
    let v : IsValid later = subst Returns e (run-IsValid cs no_query (without_order no_query tt)) in
    v.ordered

-- ===== src/Sql/Linker/Placeholders.antt =====
-- A prepared statement has a host variable for each of its placeholders.
use oos.Prelude.{◌≡◌, ◌∙◌, refl, [], ◌∷◌, ◌++◌, if◌then◌else◌, length, length-append, arith}
use oos.Prelude.Bytes.{Bytes, codes}
use oos.Prelude.Int.{pos}
use oos.Json.Print.{integer_text}
use oos.Sql.Dialect.{Dialect, TokenType, prepare_identifier}
use oos.Sql.Dialect as Dialects
use oos.Sql.Syntax.{
  operands, Condition, column_value, value_column, column_list, column_query, column_range, logical,
  negated, Token, begin, commit, rollback, select, distinct, update, set_token, remove, asc, desc,
  create, drop_table, tablename, insert, from, as_token, order_by, group_by, top, values, columns,
  column_token, where_token, query, Tokens, no_tokens, token,
}
use oos.Sql.Linker.{
  prepared, written, visit_values, visit_columns, word, word_name, evaluate, visit, link, prepare,
  list_text,
}
use oos.Sql.Build.{Build, append_to_result, push, finished}
use oos.Sql.Linker.HostVars.{
  marks, marks-append, marks-integer_text, marks-operands, IsUnmarked, marks-prepare_identifier,
  marks-list, Links, Makes, Links-refl, Links-trans, Links-plain, Links-made, finished-Makes,
  length-add_host_vars,
}
use oos.Sql.Linker.Plain.{ConditionIsPlain, TokenIsPlain, TokensArePlain}
use oos.Sql.Linker.Columns.{
  marks-written, visit_values-Links, marks-if, marks-append_zero, marks-infix, marks-in_brackets,
  Links-around, marks-word, marks-word_name, visit_column-Links, visit_columns-Links,
}

module _ (d : Dialect) (unmarked : IsUnmarked d) where
  mutual
    unfolding link marks

    evaluate-Makes :
        (c : Condition) (b : Build) → ConditionIsPlain c → Makes b (evaluate d prepared c b)
    evaluate-Makes (column_value name op v) b h = (
      refl,
      omega (
        arith,
        length-append b.host_vars (name ∷ []),
        marks-infix (prepare_identifier d name) (operands op) (codes "?"),
        marks-prepare_identifier d name unmarked h,
        marks-operands op,
      ),
    )
    evaluate-Makes (value_column name op v) b (h, g) = (
      refl,
      omega (
        arith,
        marks-infix (written v) (operands op) (prepare_identifier d name),
        marks-prepare_identifier d name unmarked h,
        marks-operands op,
        marks-written v g,
      ),
    )
    evaluate-Makes (column_list name xs) b h =
        let (e, g) = length-add_host_vars name xs b in
        (
          e,
          omega (
            arith,
            g,
            marks-prepare_identifier d name unmarked h,
            marks-list xs,
            marks-append (prepare_identifier d name)
                (codes " IN (" ++ (list_text prepared xs ++ b')' ∷ [])),
            marks-append (list_text prepared xs) (b')' ∷ []),
          ),
        )
    evaluate-Makes (column_query name op ts) b (h, g) =
        let (e, k) = finished-Makes b (link d prepared ts (push b)) (link-Links ts (push b) g) in
        let inner : Bytes = (finished (link d prepared ts (push b))).0 in
        (
          e,
          omega (
            arith,
            k,
            marks-prepare_identifier d name unmarked h,
            marks-operands op,
            marks-infix (prepare_identifier d name) (operands op) (b'(' ∷ (inner ++ b')' ∷ [])),
            marks-append inner (b')' ∷ []),
          ),
        )
    evaluate-Makes (column_range name low high) b h = (
      refl,
      omega (
        arith,
        marks-prepare_identifier d name unmarked h,
        marks-append (prepare_identifier d name) (codes " BETWEEN ? AND ?"),
        length-append b.host_vars (name ∷ []),
        length-append (b.host_vars ++ name ∷ []) (name ∷ []),
      ),
    )
    evaluate-Makes (logical left right op) b (h, g) =
        let (e, k) = evaluate-Makes left b h in
        let (e', k') = evaluate-Makes right (evaluate d prepared left b).1 g in
        let cl : Bytes = (evaluate d prepared left b).0 in
        let cr : Bytes = (evaluate d prepared right (evaluate d prepared left b).1).0 in
        (
          e' ∙ e,
          omega (
            arith,
            k,
            k',
            marks-in_brackets op (cl ++ b' ' ∷ (operands op ++ b' ' ∷ cr)),
            marks-infix cl (operands op) cr,
            marks-operands op,
          ),
        )
    evaluate-Makes (negated cond) b h =
        let (e, k) = evaluate-Makes cond b h in
        let t : Bytes = (evaluate d prepared cond b).0 in
        (e, omega (arith, k, marks-append t (b')' ∷ [])))

    visit-Links : (t : Token) (b : Build) → TokenIsPlain t → Links b (visit d prepared t b)
    visit-Links begin b h =
        Links-plain (word d prepared Dialects.begin_transaction) b
          (marks-word d unmarked Dialects.begin_transaction)
    visit-Links commit b h =
        Links-plain (word d prepared Dialects.commit_transaction) b
          (marks-word d unmarked Dialects.commit_transaction)
    visit-Links rollback b h =
        Links-plain (word d prepared Dialects.rollback_transaction) b
          (marks-word d unmarked Dialects.rollback_transaction)
    visit-Links select b h =
        Links-plain (word d prepared Dialects.select_from) b
          (marks-word d unmarked Dialects.select_from)
    visit-Links distinct b h =
        Links-plain (word d prepared Dialects.distinct_rows) b
          (marks-word d unmarked Dialects.distinct_rows)
    visit-Links update b h =
        Links-plain (word d prepared Dialects.update_table) b
          (marks-word d unmarked Dialects.update_table)
    visit-Links set_token b h =
        Links-plain (word d prepared Dialects.set_values) b
          (marks-word d unmarked Dialects.set_values)
    visit-Links remove b h =
        Links-plain (word d prepared Dialects.remove_from) b
          (marks-word d unmarked Dialects.remove_from)
    visit-Links asc b h =
        Links-plain (word d prepared Dialects.ascending) b
          (marks-word d unmarked Dialects.ascending)
    visit-Links desc b h =
        Links-plain (word d prepared Dialects.descending) b
          (marks-word d unmarked Dialects.descending)
    visit-Links (create name) b h =
        Links-plain (word_name d prepared Dialects.create_table name) b
          (marks-word_name d unmarked Dialects.create_table name h)
    visit-Links (drop_table name) b h =
        Links-plain (word_name d prepared Dialects.drop_table name) b
          (marks-word_name d unmarked Dialects.drop_table name h)
    visit-Links (order_by name) b h =
        Links-plain (word_name d prepared Dialects.order_by_column name) b
          (marks-word_name d unmarked Dialects.order_by_column name h)
    visit-Links (group_by name) b h =
        Links-plain (word_name d prepared Dialects.group_by_column name) b
          (marks-word_name d unmarked Dialects.group_by_column name h)
    visit-Links (insert name) b h =
        Links-plain (word_name d prepared Dialects.insert_into name) b
          (marks-word_name d unmarked Dialects.insert_into name h)
    visit-Links (from []) b h =
        Links-plain (word d prepared Dialects.from_table) b
          (marks-word d unmarked Dialects.from_table)
    visit-Links (from (c ∷ name)) b h =
        Links-plain (word_name d prepared Dialects.from_table (c ∷ name)) b
          (marks-word_name d unmarked Dialects.from_table (c ∷ name) h)
    visit-Links (tablename name) b h = Links-plain (prepare_identifier d name ++ b' ' ∷ []) b (
        marks-append_zero (prepare_identifier d name) (b' ' ∷ [])
          (marks-prepare_identifier d name unmarked h) refl)
    visit-Links (as_token name) b h =
        Links-plain (word d prepared Dialects.as_alias ++ (name ++ b' ' ∷ [])) b (
          marks-append_zero (word d prepared Dialects.as_alias) (name ++ b' ' ∷ [])
            (marks-word d unmarked Dialects.as_alias) (marks-append_zero name (b' ' ∷ []) h refl))
    visit-Links (top limit) b h =
        Links-plain (word d prepared Dialects.top_rows ++ (integer_text (pos limit) ++ b' ' ∷ [])) b
          (marks-append_zero (word d prepared Dialects.top_rows)
            (integer_text (pos limit) ++ b' ' ∷ []) (marks-word d unmarked Dialects.top_rows)
            (marks-append_zero (integer_text (pos limit)) (b' ' ∷ [])
              (marks-integer_text (pos limit)) refl))
    visit-Links (values vs) b h =
        let opened : Build =
          append_to_result (word d prepared Dialects.values_list ++ b'(' ∷ []) b in
        let filled : Build = visit_values d prepared vs opened in
        Links-around b opened filled (codes ") ")
          (Links-plain (word d prepared Dialects.values_list ++ b'(' ∷ []) b (
            marks-append_zero (word d prepared Dialects.values_list) (b'(' ∷ [])
              (marks-word d unmarked Dialects.values_list) refl))
          (visit_values-Links d vs opened) refl
    visit-Links (columns brackets cols) b h =
        let opened : Build = append_to_result (if brackets then codes "(" else []) b in
        let filled : Build = visit_columns d prepared cols opened in
        let closed : Build = append_to_result (if brackets then codes ")" else []) filled in
        Links-trans b closed (append_to_result (codes " ") closed)
          (Links-around b opened filled (if brackets then codes ")" else [])
            (Links-plain (if brackets then codes "(" else []) b
              (marks-if brackets (codes "(") [] refl refl))
            (visit_columns-Links d unmarked cols opened h)
            (marks-if brackets (codes ")") [] refl refl))
          (Links-plain (codes " ") closed refl)
    visit-Links (column_token col) b h = visit_column-Links d unmarked col b h
    visit-Links (where_token cond) b h =
        let opened : Build = append_to_result (word d prepared Dialects.where_condition) b in
        let r : Bytes × Build = evaluate d prepared cond opened in
        Links-around b opened (append_to_result r.0 r.1) (codes " ")
          (Links-plain (word d prepared Dialects.where_condition) b
            (marks-word d unmarked Dialects.where_condition))
          (Links-made opened r (evaluate-Makes cond opened h)) refl
    visit-Links (query ts) b h =
        let opened : Build = append_to_result (codes "(") b in
        let r : Bytes × Build = finished (link d prepared ts (push opened)) in
        Links-around b opened (append_to_result r.0 r.1) (codes ") ")
          (Links-plain (codes "(") b refl)
          (Links-made opened r (
            finished-Makes opened (link d prepared ts (push opened))
              (link-Links ts (push opened) h)))
          refl

    link-Links : (ts : Tokens) (b : Build) → TokensArePlain ts → Links b (link d prepared ts b)
    link-Links no_tokens b h = Links-refl b
    link-Links (token t ts) b (h, hs) =
        Links-trans b (visit d prepared t b) (link d prepared ts (visit d prepared t b))
          (visit-Links t b h) (link-Links ts (visit d prepared t b) hs)

  -- A prepared statement has as many host variables as placeholders, whatever was built before, and the
  -- stack of builds is as it was, where no word, opening or closing quote or type of the dialect, no name in
  -- the statement and no text on the left of an operand has a question mark in it.
  pub length-prepare :
      (ts : Tokens) (b : Build)
      → TokensArePlain ts
      → (length (prepare d ts b).0.1 ≡ marks (prepare d ts b).0.0)
        × ((prepare d ts b).1.build_info_stack ≡ b.build_info_stack)
  unfolding prepare marks
  length-prepare ts b h =
      let fresh : Build = record b { host_vars = []; column_names = [] } in
      let (e, k) =
        finished-Makes fresh (link d prepared ts (push fresh)) (link-Links ts (push fresh) h) in
      (omega (arith, k), e)

-- ===== src/Sql/Build.antt =====
-- src/sql/basic_dialect.cpp: the state of a build.
use oos.Prelude.{List, [], ◌∷◌, ◌++◌}
use oos.Prelude.Bytes.{Bytes}
use oos.Prelude.Int.{ℤ}

-- The members of the dialect that a build changes: `build_info_stack_` holds the results, from its top
-- on.
pub record Build : Type 0 where
  pub host_vars : List Bytes
  pub column_names : List Bytes
  pub build_info_stack : List Bytes

-- `top().result += part`
abbrev pub append_top : Bytes → List Bytes → List Bytes
append_top part [] = []
append_top part (result ∷ below) = (result ++ part) ∷ below

unfoldable pub append_to_result : Bytes → Build → Build
append_to_result part b = record b { build_info_stack = append_top part b.build_info_stack }

unfoldable pub add_host_var : Bytes → Build → Build
add_host_var name b = record b { host_vars = b.host_vars ++ name ∷ [] }

unfoldable pub add_column : Bytes → Build → Build
add_column name b = record b { column_names = b.column_names ++ name ∷ [] }

-- `add_host_var` as often as the list has values
unfoldable pub add_host_vars : Bytes → List ℤ → Build → Build
unfolding add_host_var
add_host_vars name [] b = b
add_host_vars name (x ∷ xs) b = add_host_vars name xs (add_host_var name b)

unfoldable pub push : Build → Build
push b = record b { build_info_stack = [] ∷ b.build_info_stack }

unfoldable pub pop : Build → Build
pop b = elim (b.build_info_stack) [
  | [] ↦ b
  | result ∷ below ↦ record b { build_info_stack = below }
]

unfoldable pub top_result : Build → Bytes
top_result b = elim (b.build_info_stack) [ [] ↦ [] | result ∷ below ↦ result ]

-- The end of `continue_build`
unfoldable pub finished : Build → Bytes × Build
unfolding top_result pop
finished b = (top_result b, pop b)

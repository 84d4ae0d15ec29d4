-- ===== src/Utils/Strings.antt =====
-- src/utils/string.cpp: `split` of a text at a delimiter, as `std::getline` reads its items: what
-- stands behind the last delimiter is an item only if it is not empty.
-- `replace_all` of all occurrences of a text by another.
pub mod Split
mod Tests
use oos.Prelude.{
  ℕ, zero, suc, Bool, true, false, ◌&&◌, List, [], ◌∷◌, ◌++◌, ◌==◌, if◌then◌else◌, length, drop,
}
use oos.Prelude.Bytes.{Bytes}

-- The items of what is left, where `item` is read already.
unfoldable pub split_loop : ℕ → Bytes → Bytes → List Bytes
split_loop delim [] [] = []
split_loop delim [] (x ∷ item) = (x ∷ item) ∷ []
split_loop delim (c ∷ str) item =
    let rest = split_loop delim str (item ++ c ∷ []) in
    let next = split_loop delim str [] in if c == delim then item ∷ next else rest

unfoldable pub split : ℕ → Bytes → List Bytes
unfolding split_loop
split delim str = split_loop delim str []

-- The text begins with the other one.
unfoldable pub starts_with : Bytes → Bytes → Bool
starts_with [] s = true
starts_with (c ∷ prefix) [] = false
starts_with (c ∷ prefix) (d ∷ s) = d == c && starts_with prefix s

-- The loop of `replace_all` over what is left of the text; each turn takes at least one byte off it.
unfoldable pub replace_loop : ℕ → Bytes → Bytes → Bytes → Bytes
unfolding starts_with
replace_loop zero search to s = s
replace_loop (suc fuel) search to [] = []
replace_loop (suc fuel) search to (c ∷ s) =
    let replaced = replace_loop fuel search to (drop (length search) (c ∷ s)) in
    let kept = replace_loop fuel search to s in
    if starts_with search (c ∷ s) then to ++ replaced else c ∷ kept

-- `replace_all` of the occurrences of a text, from the left
unfoldable pub replace_all : Bytes → Bytes → Bytes → Bytes
unfolding replace_loop
replace_all s [] to = s
replace_all s (c ∷ search) to = replace_loop (length s) (c ∷ search) to s

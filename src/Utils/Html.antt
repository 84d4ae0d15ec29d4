-- ===== src/Utils/Html.antt =====
-- src/utils/html.cpp: the escape of a text for a page.
mod Safe
mod Tests
use oos.Prelude.{ℕ, List, [], ◌∷◌, ◌++◌, ◌==◌, if◌then◌else◌}
use oos.Prelude.Bytes.{Bytes, codes}

-- The `switch` of `escape`
unfoldable pub escape_char : ℕ → Bytes
escape_char c =
    if c == b'&'
    then codes "&amp;"
    else if c == b'"'
    then codes "&quot;"
    else if c == b'\''
    then codes "&apos;"
    else if c == b'<'
    then codes "&lt;"
    else if c == b'>'
    then codes "&gt;"
    else c ∷ []

unfoldable pub escape : Bytes → Bytes
unfolding escape_char
escape [] = []
escape (c ∷ value) = escape_char c ++ escape value

-- ===== src/Utils/Version.antt =====
-- src/utils/version.cpp: versions of three parts, each an `unsigned int`. `from_string` calls `sscanf`
-- and is left out.
mod Order
mod Buffer
mod Tests
use oos.Prelude.{ℕ, ◌+◌, ◌-◌, ◌^◌, Bool, not, ◌&&◌, ◌||◌, [], ◌∷◌, ◌++◌, ◌==◌, ltb, if◌then◌else◌}
use oos.Prelude.Bytes.{Bytes}
use oos.Prelude.Int.{ℤ, pos, negsuc}
use oos.Json.Print.{integer_text}

pub record Version : Type 0 where
  pub major : ℕ
  pub minor : ℕ
  pub patch : ℕ

unfoldable pub equals : Version → Version → Bool
equals v x = v.major == x.major && v.minor == x.minor && v.patch == x.patch

unfoldable pub less : Version → Version → Bool
less v x =
    ltb v.major x.major
    || v.major == x.major && ltb v.minor x.minor
    || v.major == x.major && v.minor == x.minor && ltb v.patch x.patch

unfoldable pub less_equal : Version → Version → Bool
unfolding less equals
less_equal v x = less v x || equals v x

unfoldable pub greater : Version → Version → Bool
unfolding less_equal
greater v x = not (less_equal v x)

unfoldable pub greater_equal : Version → Version → Bool
unfolding less
greater_equal v x = not (less v x)

-- `%d` of an `unsigned int`
unfoldable pub as_int : ℕ → ℤ
as_int n = if ltb n (2 ^ 31) then pos n else negsuc (2 ^ 32 - n - 1)

-- The text that `str` prints into a buffer of 32 bytes, with a 0 byte behind it
unfoldable pub str : Version → Bytes
unfolding as_int integer_text
str v =
    integer_text (as_int v.major)
    ++ b'.' ∷ (integer_text (as_int v.minor) ++ b'.' ∷ integer_text (as_int v.patch))

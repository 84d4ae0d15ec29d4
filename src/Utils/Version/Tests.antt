-- ===== src/Utils/Version/Tests.antt =====
-- Versions.
use oos.Prelude.{◌≡◌, refl}
use oos.Prelude.Bytes.{codes}
use oos.Utils.Version.{Version, str}

abbrev early : Version
early = record { major = 0; minor = 7; patch = 12 }

abbrev late : Version
late = record { major = 1; minor = 0; patch = 0 }

abbrev huge : Version
huge = record { major = 1000000000; minor = 2000000000; patch = 2147483647 }

text_early : str early ≡ codes "0.7.12"
unfolding str
text_early = refl

-- A part from 2 ^ 31 on is printed as a negative number.
str_negative : str (record { major = 4294967295; minor = 0; patch = 0 }) ≡ codes "-1.0.0"
unfolding str
str_negative = refl

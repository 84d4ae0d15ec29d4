-- ===== src/Utils/Html/Tests.antt =====
-- A text, escaped.
use oos.Prelude.{◌≡◌, refl}
use oos.Prelude.Bytes.{codes}
use oos.Utils.Html.{escape}

escaped : escape (codes "a < 'b'") ≡ codes "a &lt; &apos;b&apos;"
unfolding escape
escaped = refl

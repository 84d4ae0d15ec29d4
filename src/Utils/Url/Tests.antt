-- ===== src/Utils/Url/Tests.antt =====
-- Texts, encoded and decoded.
use oos.Prelude.{◌≡◌, refl, true, false}
use oos.Prelude.Bytes.{codes}
use oos.Utils.Url.{encode, decode}
use oos.Utils.Url.RoundTrip.{decode-encode}

encoded : encode (codes "a b%") ≡ codes "a%20b%25"
unfolding encode
encoded = refl

-- A `+` is no space.
plus : decode (codes "a+b") ≡ (true, codes "a+b")
unfolding decode
plus = refl

cut_off : decode (codes "a%4") ≡ (false, codes "a")
unfolding decode
cut_off = refl

decode-encode_example : decode (encode (codes "50% & more")) ≡ (true, codes "50% & more")
decode-encode_example = decode-encode (codes "50% & more")

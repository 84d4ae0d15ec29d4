-- ===== src/Utils/Base64/Tests.antt =====
-- Texts, encoded and decoded.
use oos.Prelude.{◌≡◌, refl, [], ◌∷◌, some, arith}
use oos.Prelude.Bytes.{codes}
use oos.Utils.Base64.{base64, base64_url, encode, decode}
use oos.Utils.Base64.RoundTrip.{decode-encode_url}

encoded : encode base64 (codes "pleasure.") ≡ codes "cGxlYXN1cmUu"
unfolding encode
encoded = refl

filled : encode base64 (codes "light work") ≡ codes "bGlnaHQgd29yaw=="
unfolding encode
filled = refl

-- `/` stands for 63, and is decoded as 64.
slash : decode (encode base64 (codes "???")) ≡ some (codes "??@")
unfolding encode decode
slash = refl

-- A 0 byte does not come back.
zero_byte : decode (encode base64_url (97 ∷ 0 ∷ 98 ∷ [])) ≡ some (codes "ab")
unfolding encode decode
zero_byte = refl

decode-encode_url_example : decode (encode base64_url (codes "abcde")) ≡ some (codes "abcde")
decode-encode_url_example = decode-encode_url (codes "abcde") (
  omega arith,
  omega arith,
  (
    omega arith,
    omega arith,
    (omega arith, omega arith, (omega arith, omega arith, (omega arith, omega arith, tt))),
  ),
)

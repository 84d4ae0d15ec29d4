-- ===== src/Utils/Base64/RoundTrip.antt =====
-- The encoding of a text for URLs, decoded.
use oos.Prelude.{
  ℕ, ◌+◌, ◌*◌, ◌/◌, ◌%◌, ◌<◌, ◌≡◌, ◌∙◌, refl, ap, Bool, true, false, [], ◌∷◌, ◌++◌, Option, none,
  some, ◌==◌, arith, all_below, all_below_lem,
}
use oos.Prelude.Bytes.{Bytes}
use oos.Utils.Base64.{
  base64_url, code, encode_pack, encode, fill_char, char_value, keep, join, decode_pack, decode,
}

-- Every byte of the text is a byte and is not 0.
abbrev pub IsText : Bytes → Type 0
IsText [] = Unit
IsText (b ∷ bs) = (0 < b) × (b < 256) × IsText bs

abbrev is_value : Option ℕ → ℕ → Bool
is_value none i = false
is_value (some j) i = j == i

abbrev is_own_value : ℕ → Bool
is_own_value i = is_value (char_value (code base64_url i)) i

own_value_lem : all_below is_own_value 64 ≡ true
unfolding char_value code
own_value_lem = refl

is_value_lem : (o : Option ℕ) (i : ℕ) → is_value o i ≡ true → o ≡ some i
is_value_lem none i h = cc
is_value_lem (some j) i h = ap some (ground (arith, h))

-- A character of the URL table has the value that it stands for.
char_value-code : (i : ℕ) → i < 64 → char_value (code base64_url i) ≡ some i
char_value-code i h =
    is_value_lem (char_value (code base64_url i)) i
      (all_below_lem is_own_value 64 i own_value_lem h)

char_value-fill : char_value (fill_char base64_url) ≡ some 0
unfolding char_value
char_value-fill = refl

module _ (a b c : ℕ) (ha : a < 256) (hb : b < 256) (hc : c < 256) where
  join_lem : join (a / 4) (a % 4 * 16 + b / 16) (b % 16 * 4 + c / 64) (c % 64) ≡ a ∷ b ∷ c ∷ []
  unfolding join
  join_lem =
      let e : (a / 4 * 4 + (a % 4 * 16 + b / 16) / 16 % 4) % 256 ≡ a = omega arith in
      let d : ((a % 4 * 16 + b / 16) % 16 * 16 + (b % 16 * 4 + c / 64) / 4 % 16) % 256 ≡ b =
        omega arith in
      let g : ((b % 16 * 4 + c / 64) % 4 * 64 + c % 64) % 256 ≡ c = omega arith in rw (e, d, g) refl

decode_pack_lem :
    (p q s t w x y z : ℕ)
    → char_value p ≡ some w
    → char_value q ≡ some x
    → char_value s ≡ some y
    → char_value t ≡ some z
    → decode_pack p q s t ≡ some (keep (join w x y z))
unfolding decode_pack
decode_pack_lem p q s t w x y z e1 e2 e3 e4 = rw (e1, e2, e3, e4) refl

keep_text : (a : ℕ) (bs : Bytes) → 0 < a → keep (a ∷ bs) ≡ a ∷ keep bs
unfolding keep
keep_text a bs h = let e : (a == 0) ≡ false = ground (arith, h) in rw e refl

-- One group: its four characters, the last of which may be filled, give its bytes but for the 0s.
group_lem :
    (a b c s t : ℕ)
    → a < 256
    → b < 256
    → c < 256
    → char_value s ≡ some (b % 16 * 4 + c / 64)
    → char_value t ≡ some (c % 64)
    → decode_pack (code base64_url (a / 4)) (code base64_url (a % 4 * 16 + b / 16)) s t
      ≡ some (keep (a ∷ b ∷ c ∷ []))
group_lem a b c s t ha hb hc e d =
    decode_pack_lem _ _ s t _ _ _ _ (char_value-code (a / 4) (omega arith))
      (char_value-code (a % 4 * 16 + b / 16) (omega arith)) e d
    ∙ ap (λ (bs : Bytes). some (keep bs)) (join_lem a b c ha hb hc)

decode-cons :
    (p q s t : ℕ) (str bytes rest : Bytes)
    → decode_pack p q s t ≡ some bytes
    → decode str ≡ some rest
    → decode (p ∷ q ∷ s ∷ t ∷ str) ≡ some (bytes ++ rest)
unfolding decode
decode-cons p q s t str bytes rest e d = rw (e, d) refl

front_lem :
    (a b c s t : ℕ) (str bytes rest : Bytes)
    → a < 256
    → b < 256
    → c < 256
    → char_value s ≡ some (b % 16 * 4 + c / 64)
    → char_value t ≡ some (c % 64)
    → keep (a ∷ b ∷ c ∷ []) ≡ bytes
    → decode str ≡ some rest
    → decode (code base64_url (a / 4) ∷ code base64_url (a % 4 * 16 + b / 16) ∷ s ∷ t ∷ str)
      ≡ some (bytes ++ rest)
front_lem a b c s t str bytes rest ha hb hc e d k r =
    decode-cons (code base64_url (a / 4)) (code base64_url (a % 4 * 16 + b / 16)) s t str bytes rest
      (group_lem a b c s t ha hb hc e d ∙ ap some k) r

keep_one : (a : ℕ) → 0 < a → keep (a ∷ 0 ∷ 0 ∷ []) ≡ a ∷ []
unfolding keep
keep_one a h = keep_text a (0 ∷ 0 ∷ []) h

keep_two : (a b : ℕ) → 0 < a → 0 < b → keep (a ∷ b ∷ 0 ∷ []) ≡ a ∷ b ∷ []
unfolding keep
keep_two a b h g = keep_text a (b ∷ 0 ∷ []) h ∙ ap (◌∷◌ a) (keep_text b (0 ∷ []) g)

keep_last : (b c : ℕ) → 0 < b → 0 < c → keep (b ∷ c ∷ []) ≡ b ∷ c ∷ []
unfolding keep
keep_last b c g k = keep_text b (c ∷ []) g ∙ ap (◌∷◌ b) (keep_text c [] k)

keep_three : (a b c : ℕ) → 0 < a → 0 < b → 0 < c → keep (a ∷ b ∷ c ∷ []) ≡ a ∷ b ∷ c ∷ []
keep_three a b c h g k = keep_text a (b ∷ c ∷ []) h ∙ ap (◌∷◌ a) (keep_last b c g k)

-- A text without 0 bytes, encoded for URLs, is decoded to itself, with its filled last group.
pub decode-encode_url : (str : Bytes) → IsText str → decode (encode base64_url str) ≡ some str
unfolding encode encode_pack decode
decode-encode_url [] h = refl
decode-encode_url (a ∷ []) (ha0, ha, _) =
    front_lem a 0 0 (fill_char base64_url) (fill_char base64_url) [] (a ∷ []) [] ha (omega arith)
      (omega arith) char_value-fill char_value-fill (keep_one a ha0) refl
decode-encode_url (a ∷ b ∷ []) (ha0, ha, (hb0, hb, _)) =
    front_lem a b 0 (code base64_url (b % 16 * 4 + 0 / 64)) (fill_char base64_url) [] (a ∷ b ∷ [])
      [] ha hb (omega arith) (char_value-code (b % 16 * 4 + 0 / 64) (omega arith)) char_value-fill
      (keep_two a b ha0 hb0) refl
decode-encode_url (a ∷ b ∷ c ∷ str) (ha0, ha, (hb0, hb, (hc0, hc, hs))) =
    front_lem a b c (code base64_url (b % 16 * 4 + c / 64)) (code base64_url (c % 64))
      (encode base64_url str) (a ∷ b ∷ c ∷ []) str ha hb hc
      (char_value-code (b % 16 * 4 + c / 64) (omega arith)) (char_value-code (c % 64) (omega arith))
      (keep_three a b c ha0 hb0 hc0) (decode-encode_url str hs)

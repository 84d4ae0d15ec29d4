-- ===== src/Utils/Url/RoundTrip.antt =====
-- The encoding of a text, decoded.
use oos.Prelude.{
  ℕ, ◌≡◌, ◌∙◌, refl, ap, Bool, true, false, ◌&&◌, List, [], ◌∷◌, ◌++◌, append_assoc, append-nil,
  none, some, ◌==◌, Bool-cases, Option-cases, inl, inr, arith,
}
use oos.Prelude.Bytes.{Bytes}
use oos.Utils.Hex.{strtol_pair, hex_digit}
use oos.Utils.Url.{char_to_enc_map, find_char, encode_char, encode, decode_loop, decode}

-- An entry of the table is `%` and the two digits of its character.
abbrev is_entry : ℕ × Bytes → Bool
is_entry (d, p ∷ a ∷ b ∷ []) = (p == b'%') && (strtol_pair a b == d)
is_entry _ = false

abbrev all_entries : List (ℕ × Bytes) → Bool
all_entries [] = true
all_entries (e ∷ es) = is_entry e && all_entries es

table_lem : all_entries char_to_enc_map ≡ true
unfolding strtol_pair hex_digit
table_lem = refl

pair_lem :
    (c : ℕ) (w : Bytes)
    → is_entry (c, w) ≡ true
    → (a : ℕ) × (b : ℕ) × (w ≡ b'%' ∷ a ∷ b ∷ []) × (strtol_pair a b ≡ c)
pair_lem c (p ∷ a ∷ b ∷ []) h = (a, b, ground (arith, h), ground (arith, h))
pair_lem c [] h = cc
pair_lem c (p ∷ []) h = cc
pair_lem c (p ∷ a ∷ []) h = cc
pair_lem c (p ∷ a ∷ b ∷ d ∷ w) h = cc

find_lem :
    (c : ℕ) (w : Bytes) (table : List (ℕ × Bytes))
    → all_entries table ≡ true
    → find_char c table ≡ some w
    → is_entry (c, w) ≡ true
unfolding find_char
find_lem c w [] h e = cc
find_lem c w ((d, v) ∷ table) h e = elim (Bool-cases (d == c)) [
  | inl g ↦ ground (arith, h, e, g)
  | inr g ↦ find_lem c w table (ground (arith, h)) (ground (arith, e, g))
]

decode_plain :
    (c : ℕ) (cs acc : Bytes)
    → (c == b'%') ≡ false
    → decode_loop (c ∷ cs) acc ≡ decode_loop cs (acc ++ c ∷ [])
unfolding decode_loop
decode_plain c [] acc h = rw h refl
decode_plain c (a ∷ []) acc h = rw h refl
decode_plain c (a ∷ b ∷ cs) acc h = rw h refl

plain_lem : (c : ℕ) → find_char c char_to_enc_map ≡ none → (c == b'%') ≡ false
unfolding find_char
plain_lem c h = ground (arith, h)

entry_lem :
    (a b : ℕ) (cs acc : Bytes)
    → decode_loop (b'%' ∷ a ∷ b ∷ cs) acc ≡ decode_loop cs (acc ++ strtol_pair a b ∷ [])
unfolding decode_loop
entry_lem a b cs acc = refl

encode_char-plain : (c : ℕ) → find_char c char_to_enc_map ≡ none → encode_char c ≡ c ∷ []
unfolding encode_char
encode_char-plain c h = rw (h, encode_char) refl

encode_char-entry : (c : ℕ) (w : Bytes) → find_char c char_to_enc_map ≡ some w → encode_char c ≡ w
unfolding encode_char
encode_char-entry c w h = rw (h, encode_char) refl

decode-encode_entry :
    (c : ℕ) (w cs acc : Bytes)
    → is_entry (c, w) ≡ true
    → decode_loop (w ++ cs) acc ≡ decode_loop cs (acc ++ c ∷ [])
decode-encode_entry c w cs acc h =
    let (a, b, e, d) = pair_lem c w h in
    ap (λ (v : Bytes). decode_loop (v ++ cs) acc) e
    ∙ entry_lem a b cs acc
    ∙ ap (λ (x : ℕ). decode_loop cs (acc ++ x ∷ [])) d

-- A character of the table is decoded from its three characters, any other from itself.
decode-encode_char :
    (c : ℕ) (cs acc : Bytes)
    → decode_loop (encode_char c ++ cs) acc ≡ decode_loop cs (acc ++ c ∷ [])
decode-encode_char c cs acc = elim (Option-cases (find_char c char_to_enc_map)) [
  | inl h ↦ rw (encode_char-plain c h) (decode_plain c cs acc (plain_lem c h))
  | inr (w, h) ↦
      rw (encode_char-entry c w h)
        (decode-encode_entry c w cs acc (find_lem c w char_to_enc_map table_lem h))
]

decode_loop-encode : (str acc : Bytes) → decode_loop (encode str) acc ≡ (true, acc ++ str)
unfolding encode decode_loop
decode_loop-encode [] acc = rw (append-nil acc) refl
decode_loop-encode (c ∷ cs) acc =
    decode-encode_char c (encode cs) acc
    ∙ decode_loop-encode cs (acc ++ c ∷ [])
    ∙ rw (append_assoc acc (c ∷ []) cs) refl

-- The decoding of an encoded text succeeds and is the text, whatever its bytes are.
pub decode-encode : (str : Bytes) → decode (encode str) ≡ (true, str)
unfolding decode
decode-encode str = decode_loop-encode str []

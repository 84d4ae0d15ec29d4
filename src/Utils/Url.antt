-- ===== src/Utils/Url.antt =====
-- src/utils/url.cpp: percent encoding. A text is a list of bytes.
mod RoundTrip
mod Tests
use oos.Prelude.{ℕ, Bool, true, false, List, [], ◌∷◌, ◌++◌, Option, none, some, ◌==◌, if◌then◌else◌}
use oos.Prelude.Bytes.{Bytes, codes}
use oos.Utils.Hex.{strtol_pair}

-- `char_to_enc_map_`
abbrev pub char_to_enc_map : List (ℕ × Bytes)
char_to_enc_map =
    (b' ', codes "%20")
    ∷ (b'!', codes "%21")
    ∷ (b'"', codes "%22")
    ∷ (b'#', codes "%23")
    ∷ (b'$', codes "%24")
    ∷ (b'%', codes "%25")
    ∷ (b'&', codes "%26")
    ∷ (b'\'', codes "%27")
    ∷ (b'(', codes "%28")
    ∷ (b')', codes "%29")
    ∷ (b'*', codes "%2A")
    ∷ (b'+', codes "%2B")
    ∷ (b',', codes "%2C")
    ∷ (b'-', codes "%2D")
    ∷ (b'.', codes "%2E")
    ∷ (b'/', codes "%2F")
    ∷ (b':', codes "%3A")
    ∷ (b';', codes "%3B")
    ∷ (b'<', codes "%3C")
    ∷ (b'=', codes "%3D")
    ∷ (b'>', codes "%3E")
    ∷ (b'?', codes "%3F")
    ∷ (b'@', codes "%40")
    ∷ (b'[', codes "%5B")
    ∷ (b'\\', codes "%5C")
    ∷ (b']', codes "%5D")
    ∷ (b'{', codes "%7B")
    ∷ (b'|', codes "%7C")
    ∷ (b'}', codes "%7D")
    ∷ []

-- `unordered_map::find`
unfoldable pub find_char : ℕ → List (ℕ × Bytes) → Option Bytes
find_char c [] = none
find_char c ((d, w) ∷ table) = if d == c then some w else find_char c table

-- One step of the loop of `encode`.
unfoldable pub encode_char : ℕ → Bytes
unfolding find_char
encode_char c = elim (find_char c char_to_enc_map) [ none ↦ c ∷ [] | some w ↦ w ]

unfoldable pub encode : Bytes → Bytes
unfolding encode_char
encode [] = []
encode (c ∷ cs) = encode_char c ++ encode cs

-- The loop of `decode`, with what is decoded so far; `false` where less than two characters stand
-- behind a `%`. The test for `+` stands behind the test for `%`, so that no character reaches it.
unfoldable pub decode_loop : Bytes → Bytes → Bool × Bytes
unfolding strtol_pair
decode_loop [] decoded = (true, decoded)
decode_loop (c ∷ []) decoded = if c == b'%' then (false, decoded) else (true, decoded ++ c ∷ [])
decode_loop (c ∷ a ∷ []) decoded =
    let rest = decode_loop (a ∷ []) (decoded ++ c ∷ []) in
    if c == b'%' then (false, decoded) else rest
decode_loop (c ∷ a ∷ b ∷ cs) decoded =
    let pair = decode_loop cs (decoded ++ strtol_pair a b ∷ []) in
    let rest = decode_loop (a ∷ b ∷ cs) (decoded ++ c ∷ []) in if c == b'%' then pair else rest

unfoldable pub decode : Bytes → Bool × Bytes
unfolding decode_loop
decode str = decode_loop str []

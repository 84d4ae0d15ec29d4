-- ===== src/Utils/Version/Buffer.antt =====
-- The text of a version and the buffer of 32 bytes that it is printed into.
use oos.Prelude.{
  ℕ, zero, suc, ◌+◌, ◌*◌, ◌/◌, ◌%◌, ◌^◌, ◌<◌, ◌≤◌, ◌≡◌, refl, [], ◌∷◌, ◌++◌, length, length-append,
  ltb, Bool-cases, inl, inr, arith, true,
}
use oos.Prelude.Bytes.{Bytes}
use oos.Json.Print.{digits, integer_text}
use oos.Utils.Version.{Version, as_int, str}

-- The powers of 10
tens : ℕ → ℕ
tens zero = 1
tens (suc k) = 10 * tens k

length-digits_le : (k fuel n : ℕ) → n < tens (suc k) → length (digits fuel n) ≤ suc k
unfolding digits tens
length-digits_le k zero n h = omega arith
length-digits_le zero (suc fuel) n h = ground (arith, h)
length-digits_le (suc k) (suc fuel) n h = elim (Bool-cases (ltb n 10)) [
  | inl e ↦ rw e (omega arith)
  | inr e ↦ rw e (
      omega (
        arith,
        h,
        length-append (digits fuel (n / 10)) ((b'0' + n % 10) ∷ []),
        length-digits_le k fuel (n / 10) (omega (arith, h)),
      ))
]

tens_pos : (k : ℕ) → 0 < tens k
unfolding tens
tens_pos zero = omega arith
tens_pos (suc k) = omega (arith, tens_pos k)

length-digits_ge : (k fuel n : ℕ) → n < fuel → tens k ≤ n → suc k ≤ length (digits fuel n)
unfolding digits tens
length-digits_ge k zero n lt h = absurd (omega (arith, lt))
length-digits_ge zero (suc fuel) n lt h = elim (Bool-cases (ltb n 10)) [
  | inl e ↦ rw e (omega arith)
  | inr e ↦ rw e (omega (arith, length-append (digits fuel (n / 10)) ((b'0' + n % 10) ∷ [])))
]
length-digits_ge (suc k) (suc fuel) n lt h = elim (Bool-cases (ltb n 10)) [
  | inl e ↦ absurd (ground (arith, e, h, tens_pos k))
  | inr e ↦ rw e (
      omega (
        arith,
        length-append (digits fuel (n / 10)) ((b'0' + n % 10) ∷ []),
        length-digits_ge k fuel (n / 10) (ground (arith, e, lt)) (omega (arith, h)),
      ))
]

tens_nine : tens 9 ≡ 1000000000
unfolding tens
tens_nine = refl

part : ℕ → Bytes
part n = integer_text (as_int n)

length-part_le : (n : ℕ) → n < 1000000000 → length (part n) ≤ 9
unfolding part as_int integer_text
length-part_le n h =
    let e : ltb n (2 ^ 31) ≡ true = ground (arith, h) in
    rw e (length-digits_le 8 (suc n) n (omega (arith, h, tens_nine)))

length-part_ge : (n : ℕ) → 1000000000 ≤ n → n < 2 ^ 31 → 10 ≤ length (part n)
unfolding part as_int integer_text
length-part_ge n h g =
    let e : ltb n (2 ^ 31) ≡ true = ground (arith, g) in
    rw e (length-digits_ge 9 (suc n) n (omega arith) (omega (arith, h, tens_nine)))

length-three :
    (a b c : Bytes) → length (a ++ b'.' ∷ (b ++ b'.' ∷ c)) ≡ length a + length b + length c + 2
length-three a b c =
    omega (arith, length-append a (b'.' ∷ (b ++ b'.' ∷ c)), length-append b (b'.' ∷ c))

length-str :
    (v : Version)
    → length (str v) ≡ length (part v.major) + length (part v.minor) + length (part v.patch) + 2
unfolding str part
length-str v = length-three (part v.major) (part v.minor) (part v.patch)

-- The text of a version whose parts are below 10 ^ 9 fits into the buffer, with the 0 byte behind it.
pub length-str_le :
    (v : Version)
    → v.major < 1000000000
    → v.minor < 1000000000
    → v.patch < 1000000000
    → length (str v) + 1 ≤ 32
length-str_le v a b c = omega (
  arith,
  length-str v,
  length-part_le v.major a,
  length-part_le v.minor b,
  length-part_le v.patch c,
)

-- The text of a version whose parts are 10 ^ 9 or more, and fit into an `int`, is written over the end of
-- the buffer.
pub length-str_gt :
    (v : Version)
    → (1000000000 ≤ v.major) × (v.major < 2 ^ 31)
    → (1000000000 ≤ v.minor) × (v.minor < 2 ^ 31)
    → (1000000000 ≤ v.patch) × (v.patch < 2 ^ 31)
    → 32 < length (str v) + 1
length-str_gt v (a, a') (b, b') (c, c') = omega (
  arith,
  length-str v,
  length-part_ge v.major a a',
  length-part_ge v.minor b b',
  length-part_ge v.patch c c',
)

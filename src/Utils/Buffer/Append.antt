-- ===== src/Utils/Buffer/Append.antt =====
-- What `append` leaves in the buffer.
use oos.Prelude.{
  ◌+◌, ◌≤◌, ◌<◌, ◌≡◌, ◌⊎◌, refl, ◌++◌, none, some, length, take, drop, ltb, Bool-cases, inl, inr,
  arith, take_overwrite, length-append, length-take, length-drop,
}
use oos.Prelude.Bytes.{Bytes}
use oos.Utils.Buffer.{Buffer, capacity, append}

-- The bytes that a buffer holds.
abbrev pub contents : Buffer → Bytes
contents buf = take buf.filled buf.cells

-- The filled part is inside of the array.
abbrev pub IsBuffer : Buffer → Type 0
IsBuffer buf = buf.filled ≤ capacity buf

-- What `append` makes where the chunk fits.
abbrev appended : Buffer → Bytes → Buffer
appended buf chunk = record {
  cells = take buf.filled buf.cells ++ (chunk ++ drop (buf.filled + length chunk) buf.cells);
  filled = buf.filled + length chunk;
}

length-appended :
    (buf : Buffer) (chunk : Bytes)
    → buf.filled + length chunk ≤ length buf.cells
    → length (appended buf chunk).cells ≡ length buf.cells
length-appended buf chunk f = omega (
  arith,
  length-append (take buf.filled buf.cells) (chunk ++ drop (buf.filled + length chunk) buf.cells),
  length-append chunk (drop (buf.filled + length chunk) buf.cells),
  length-take buf.filled buf.cells,
  length-drop (buf.filled + length chunk) buf.cells,
)

-- `append` fails exactly where the chunk does not fit. Elsewhere the capacity stays, the buffer is
-- well-formed, and the chunk stands behind the bytes that were there.
pub append_lem :
    (buf : Buffer) (chunk : Bytes)
    → IsBuffer buf
    → ((capacity buf < buf.filled + length chunk) × (append buf chunk ≡ none))
      ⊎ ((later : Buffer) × (append buf chunk ≡ some later)
          × IsBuffer later
          × (capacity later ≡ capacity buf)
          × (contents later ≡ contents buf ++ chunk))
unfolding append capacity
append_lem buf chunk h = elim (Bool-cases (ltb (capacity buf) (buf.filled + length chunk))) [
  | inl e ↦ inl (ground (arith, e), rw e refl)
  | inr e ↦
      let f : buf.filled + length chunk ≤ length buf.cells = ground (arith, e) in
      let len : length (appended buf chunk).cells ≡ length buf.cells =
        length-appended buf chunk f in
      inr (
        appended buf chunk,
        rw e refl,
        omega (arith, len, f),
        len,
        take_overwrite buf.filled (buf.filled + length chunk) buf.cells chunk
            (drop (buf.filled + length chunk) buf.cells) h refl,
      )
]

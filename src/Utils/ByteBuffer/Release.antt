-- ===== src/Utils/ByteBuffer/Release.antt =====
-- `release` hands out the oldest bytes, and `size` counts those that are left.
use oos.Prelude.{
  ℕ, zero, suc, ◌+◌, ◌-◌, ◌≤◌, ◌<◌, ◌≡◌, refl, sym, ap, ◌∙◌, List, [], ◌∷◌, ◌++◌, append_assoc,
  append-nil, length, take, drop, length-append, take-append_le, take-append_ge, drop-append_le,
  drop-append_ge, drop-drop, take_all, take-take_le, drop-take, arith, Option, some, Bool-cases,
  inl, inr, false, leb, leb→le,
}
use oos.Prelude.Bytes.{Bytes}
use oos.Prelude.Fallible.{◌>>=◌}
use oos.Utils.ByteBuffer.{
  BufferChunk, used, peek, byte_buffer, release_loop, release_rest, renew, release, size,
}
use oos.Utils.ByteBuffer.Chunks.{
  byte_buffer-IsBuffer, IsBuffer, unread, contents, IsChunk, IsRow, length-unread,
}

-- A list that `release` may leave behind before it renews it.
abbrev IsRest : ℕ → List BufferChunk → Type 0
IsRest n [] = Unit
IsRest n (c ∷ cs) = IsBuffer n (c ∷ cs)

IsBuffer-tail :
    (n : ℕ) (c : BufferChunk) (cs : List BufferChunk) → IsBuffer n (c ∷ cs) → IsRest n cs
IsBuffer-tail n c [] h = tt
IsBuffer-tail n c (d ∷ cs) h = record { row = h.row.2; tail = h.tail.1 }

IsRow-head : (n : ℕ) (c : BufferChunk) (cs : List BufferChunk) → IsRow n (c ∷ cs) → IsChunk n c
IsRow-head n c [] h = h
IsRow-head n c (d ∷ cs) h = h.0

-- The first chunk is read a little further.
abbrev advance : BufferChunk → ℕ → BufferChunk
advance c k = record c { read_cursor = c.read_cursor + k }

IsRow-advance :
    (n : ℕ) (c : BufferChunk) (cs : List BufferChunk) (k : ℕ)
    → IsRow n (c ∷ cs)
    → k ≤ used c
    → IsRow n (advance c k ∷ cs)
unfolding used
IsRow-advance n c [] k h le = record {
  cells_size = h.cells_size;
  read_le_write = omega (arith, h.read_le_write);
  write_le_size = h.write_le_size;
}
IsRow-advance n c (d ∷ cs) k h le = (
  record {
    cells_size = h.0.cells_size;
    read_le_write = omega (arith, h.0.read_le_write);
    write_le_size = h.0.write_le_size;
  },
  h.1,
  h.2,
)

unread-advance :
    (n : ℕ) (c : BufferChunk) (k : ℕ)
    → IsChunk n c
    → k ≤ used c
    → unread (advance c k) ≡ drop k (unread c)
unfolding used
unread-advance n c k v le =
    let w = c.write_cursor in
    let r = c.read_cursor in
    let e : w - (r + k) ≡ w - r - k = omega arith in
    rw (e, ← drop-drop r k c.cells) (sym (drop-take k (w - r) (drop r c.cells)))

peek-take : (c : BufferChunk) (k : ℕ) → k ≤ used c → peek c k ≡ take k (unread c)
unfolding peek used
peek-take c k le =
    sym (take-take_le k (c.write_cursor - c.read_cursor) (drop c.read_cursor c.cells) le)

peek_all : (n : ℕ) (c : BufferChunk) → IsChunk n c → peek c (used c) ≡ unread c
peek_all n c v =
    peek-take c (used c) (omega arith)
    ∙ take_all (used c) (unread c) (omega (arith, length-unread n c v))

leb→gt : (a b : ℕ) → leb a b ≡ false → b < a
leb→gt a b h = ground arith

-- Where the loop stops: at the end of the list, or at a chunk that holds more than is left to copy.
abbrev Stops : ℕ → ℕ → List BufferChunk → ℕ → Type 0
Stops size held [] left = left + held ≡ size
Stops size held (c ∷ _) left = left < used c

Stops-cons :
    (size held u : ℕ) (cs : List BufferChunk) (left : ℕ)
    → u ≤ size
    → Stops (size - u) held cs left
    → Stops size (u + held) cs left
Stops-cons size held u [] left h s = omega arith
Stops-cons size held u (c ∷ cs) left h s = s

-- What the loop returns: the bytes copied, the chunks that stay, and the size that is left, which
-- the first of them has more of than is asked for.
record Copied (n size : ℕ) (cs : List BufferChunk) (out : Bytes) (r : Bytes × List BufferChunk × ℕ)
    : Type 0 where
  copied : r.0 ++ take r.2 (contents r.1) ≡ out ++ take size (contents cs)
  rest : drop r.2 (contents r.1) ≡ drop size (contents cs)
  valid : IsRest n r.1
  stops : Stops size (length (contents cs)) r.1 r.2

module _ (n : ℕ) where
  release_loop-Copied :
      (cs : List BufferChunk) (size : ℕ) (out : Bytes)
      → IsRest n cs
      → Copied n size cs out (release_loop cs size out)
  unfolding release_loop
  release_loop-Copied [] size out v = record {
    copied = refl;
    rest = refl;
    valid = tt;
    stops = omega arith;
  }
  release_loop-Copied (c ∷ cs) size out v = elim (Bool-cases (leb (used c) size)) [
    | inl whole ↦
        let vc = IsRow-head n c cs v.row in
        let le = leb→le (used c) size whole in
        let len = length-unread n c vc in
        let ge : length (unread c) ≤ size = omega arith in
        let ih =
          release_loop-Copied cs (size - used c) (out ++ peek c (used c))
            (IsBuffer-tail n c cs v) in
        rw whole (record {
          copied =
              ih.copied
              ∙ rw (peek_all n c vc) (
                  append_assoc out (unread c) (take (size - used c) (contents cs))
                  ∙ ap (◌++◌ out)
                      (sym (rw len at (take-append_ge size (unread c) (contents cs) ge))));
          rest = ih.rest ∙ sym (rw len at (drop-append_ge size (unread c) (contents cs) ge));
          valid = ih.valid;
          stops =
              rw (length-append (unread c) (contents cs), len)
                (Stops-cons size (length (contents cs)) (used c) _ _ le ih.stops);
        })
    | inr part ↦
        rw part
          (record { copied = refl; rest = refl; valid = v; stops = leb→gt (used c) size part })
  ]

-- A run that succeeds with these bytes and a valid buffer that holds `left`.
pub record Releases (n : ℕ) (r : Option (Bytes × List BufferChunk)) (out left : Bytes)
    : Type 0 where
  pub chunks : List BufferChunk
  pub returns : r ≡ some (out, chunks)
  pub valid : IsBuffer n chunks
  pub holds : contents chunks ≡ left

renew-IsBuffer :
    (n : ℕ) (fresh : Bytes) (cs : List BufferChunk)
    → length fresh ≡ n
    → IsRest n cs
    → IsBuffer n (renew fresh cs) × (contents (renew fresh cs) ≡ contents cs)
unfolding renew byte_buffer
renew-IsBuffer n fresh [] h v = (byte_buffer-IsBuffer n fresh h, refl)
renew-IsBuffer n fresh (c ∷ cs) h v = (v, refl)

-- The step behind the loop, which reads a part of the first chunk that is left.
rest-Releases :
    (n : ℕ) (fresh out : Bytes) (cs : List BufferChunk) (k held size : ℕ)
    → length fresh ≡ n
    → IsRest n cs
    → Stops size held cs k
    → size ≤ held
    → Releases n
        (do (o, chunks) ← release_rest (out, cs, k); some (o, renew fresh chunks))
        (out ++ take k (contents cs))
        (drop k (contents cs))
unfolding release_rest
rest-Releases n fresh out cs zero held size h v s le =
    let r = renew-IsBuffer n fresh cs h v in
    rw (append-nil out)
      (record { chunks = renew fresh cs; returns = refl; valid = r.0; holds = r.1 })
rest-Releases n fresh out [] (suc k) held size h v s le = absurd (omega arith)
rest-Releases n fresh out (c ∷ cs) (suc k) held size h v s le =
    let vc = IsRow-head n c cs v.row in
    let len = length-unread n c vc in
    let r =
      renew-IsBuffer n fresh (advance c (suc k) ∷ cs) h
        (record { row = IsRow-advance n c cs (suc k) v.row (omega arith); tail = v.tail }) in
    let fits : suc k ≤ length (unread c) = omega arith in
    rw
      (
        take-append_le (suc k) (unread c) (contents cs) fits,
        drop-append_le (suc k) (unread c) (contents cs) fits,
        ← peek-take c (suc k) (omega arith),
      )
      (record {
        chunks = renew fresh (advance c (suc k) ∷ cs);
        returns = refl;
        valid = r.0;
        holds =
            r.1
            ∙ ap (λ (b : Bytes). b ++ contents cs) (unread-advance n c (suc k) vc (omega arith));
      })

-- `release` of no more bytes than a well-formed buffer holds returns the oldest bytes, takes them
-- out, and keeps the buffer well-formed.
pub release_lem :
    (n : ℕ) (fresh : Bytes) (chunk_list : List BufferChunk) (size : ℕ)
    → length fresh ≡ n
    → IsBuffer n chunk_list
    → size ≤ length (contents chunk_list)
    → Releases n
        (release fresh chunk_list size)
        (take size (contents chunk_list))
        (drop size (contents chunk_list))
unfolding release
release_lem n fresh [] size h v le = absurd v.row
release_lem n fresh (c ∷ cs) size h v le =
    let l = release_loop-Copied n (c ∷ cs) size [] v in
    rw (← l.copied, ← l.rest)
      (rest-Releases n fresh _ _ _ (length (contents (c ∷ cs))) size h l.valid l.stops le)

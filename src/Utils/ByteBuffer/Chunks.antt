-- ===== src/Utils/ByteBuffer/Chunks.antt =====
-- What a list of chunks holds, and the invariant of the list: every array has the one size, the
-- cursors are in order, and all chunks but the last are written to their end.
use oos.Prelude.{
  ℕ, ◌+◌, ◌-◌, ◌≤◌, ◌≡◌, refl, ap, ◌∙◌, List, [], ◌∷◌, ◌++◌, append_assoc, length, take, drop,
  length-append, length-take, length-drop, window_overwrite, arith, some,
}
use oos.Prelude.Bytes.{Bytes}
use oos.Utils.ByteBuffer.{BufferChunk, available, used, fill, split_back, buffer_chunk, byte_buffer}

-- The bytes of a chunk that are written and not read.
abbrev pub unread : BufferChunk → Bytes
unread c = take (c.write_cursor - c.read_cursor) (drop c.read_cursor c.cells)

abbrev pub contents : List BufferChunk → Bytes
contents [] = []
contents (c ∷ cs) = unread c ++ contents cs

pub record IsChunk (buf_size : ℕ) (c : BufferChunk) : Type 0 where
  pub cells_size : length c.cells ≡ buf_size
  pub read_le_write : c.read_cursor ≤ c.write_cursor
  pub write_le_size : c.write_cursor ≤ buf_size

-- All chunks are full but the last, and there is a last one.
abbrev pub IsRow : ℕ → List BufferChunk → Type 0
IsRow n [] = ⊥
IsRow n (c ∷ []) = IsChunk n c
IsRow n (c ∷ d ∷ cs) = IsChunk n c × (c.write_cursor ≡ n) × IsRow n (d ∷ cs)

abbrev pub AllUnread : List BufferChunk → Type 0
AllUnread [] = Unit
AllUnread (c ∷ cs) = (c.read_cursor ≡ 0) × AllUnread cs

-- Only the first chunk may be read in part.
abbrev pub TailUnread : List BufferChunk → Type 0
TailUnread [] = Unit
TailUnread (c ∷ cs) = AllUnread cs

pub record IsBuffer (n : ℕ) (cs : List BufferChunk) : Type 0 where
  pub row : IsRow n cs
  pub tail : TailUnread cs

AllUnread-append : (cs ds : List BufferChunk) → AllUnread cs → AllUnread ds → AllUnread (cs ++ ds)
AllUnread-append [] ds u w = w
AllUnread-append (c ∷ cs) ds u w = (u.0, AllUnread-append cs ds u.1 w)

pub AllUnread-split :
    (cs ds : List BufferChunk) → AllUnread (cs ++ ds) → AllUnread cs × AllUnread ds
AllUnread-split [] ds u = (tt, u)
AllUnread-split (c ∷ cs) ds u = let r = AllUnread-split cs ds u.1 in ((u.0, r.0), r.1)

pub TailUnread-last :
    (front : List BufferChunk) (c d : BufferChunk)
    → TailUnread (front ++ c ∷ [])
    → d.read_cursor ≡ c.read_cursor
    → TailUnread (front ++ d ∷ [])
TailUnread-last [] c d u e = tt
TailUnread-last (f ∷ front) c d u e =
    let r = AllUnread-split front (c ∷ []) u in AllUnread-append front (d ∷ []) r.0 (e ∙ r.1.0, tt)

pub TailUnread-concat :
    (front : List BufferChunk) (c d : BufferChunk)
    → TailUnread (front ++ c ∷ [])
    → d.read_cursor ≡ 0
    → TailUnread ((front ++ c ∷ []) ++ d ∷ [])
TailUnread-concat [] c d u e = (e, tt)
TailUnread-concat (f ∷ front) c d u e = AllUnread-append (front ++ c ∷ []) (d ∷ []) u (e, tt)

abbrev pub AllFull : ℕ → List BufferChunk → Type 0
AllFull n [] = Unit
AllFull n (c ∷ cs) = IsChunk n c × (c.write_cursor ≡ n) × AllFull n cs

pub buffer_chunk-IsChunk :
    (n : ℕ) (fresh : Bytes) → length fresh ≡ n → IsChunk n (buffer_chunk fresh)
unfolding buffer_chunk
buffer_chunk-IsChunk n fresh h = record {
  cells_size = h;
  read_le_write = omega arith;
  write_le_size = omega arith;
}

pub byte_buffer-IsBuffer :
    (n : ℕ) (fresh : Bytes) → length fresh ≡ n → IsBuffer n (byte_buffer fresh)
unfolding byte_buffer
byte_buffer-IsBuffer n fresh h = record { row = buffer_chunk-IsChunk n fresh h; tail = tt }

pub length-unread : (n : ℕ) (c : BufferChunk) → IsChunk n c → length (unread c) ≡ used c
unfolding used
length-unread n c v = omega (
  arith,
  length-take (c.write_cursor - c.read_cursor) (drop c.read_cursor c.cells),
  length-drop c.read_cursor c.cells,
)

pub contents-append : (cs ds : List BufferChunk) → contents (cs ++ ds) ≡ contents cs ++ contents ds
contents-append [] ds = refl
contents-append (c ∷ cs) ds = simp (contents-append cs ds, append_assoc)

-- Filling a chunk with bytes that fit.
module _ (n : ℕ) (c : BufferChunk) (bytes : Bytes) (v : IsChunk n c)
    (fits : length bytes ≤ available c) where
  pub fill-IsChunk : IsChunk n (fill c bytes)
  unfolding fill available
  fill-IsChunk = record {
    cells_size = omega (
      arith,
      length-append (take c.write_cursor c.cells)
          (bytes ++ drop (c.write_cursor + length bytes) c.cells),
      length-append bytes (drop (c.write_cursor + length bytes) c.cells),
      length-take c.write_cursor c.cells,
      length-drop (c.write_cursor + length bytes) c.cells,
      v.cells_size,
      v.write_le_size,
    );
    read_le_write = omega (arith, v.read_le_write);
    write_le_size = omega (arith, v.write_le_size, v.cells_size);
  }

  pub unread-fill : unread (fill c bytes) ≡ unread c ++ bytes
  unfolding fill available
  unread-fill =
      window_overwrite c.read_cursor c.write_cursor c.cells bytes _ v.read_le_write
        (omega (arith, v.write_le_size, v.cells_size))

-- `split_back` takes a list apart at its last chunk.
pub split_back-concat :
    (front : List BufferChunk) (back : BufferChunk)
    → split_back (front ++ back ∷ []) ≡ some (front, back)
unfolding split_back
split_back-concat [] back = refl
split_back-concat (c ∷ []) back = refl
split_back-concat (c ∷ d ∷ cs) back = rw (split_back-concat (d ∷ cs) back, split_back)

-- A buffer is a row of full chunks and a last one.
pub record Splits (n : ℕ) (cs : List BufferChunk) : Type 0 where
  pub front : List BufferChunk
  pub back : BufferChunk
  pub splits : cs ≡ front ++ back ∷ []
  pub full : AllFull n front
  pub last : IsChunk n back

pub IsRow-Splits : (n : ℕ) (cs : List BufferChunk) → IsRow n cs → Splits n cs
IsRow-Splits n [] h = absurd h
IsRow-Splits n (c ∷ []) h = record { front = []; back = c; splits = refl; full = tt; last = h }
IsRow-Splits n (c ∷ d ∷ cs) h =
    let s = IsRow-Splits n (d ∷ cs) h.2 in
    record {
      front = c ∷ s.front;
      back = s.back;
      splits = ap (◌∷◌ c) s.splits;
      full = (h.0, h.1, s.full);
      last = s.last;
    }

pub AllFull-IsRow :
    (n : ℕ) (front : List BufferChunk) {back : BufferChunk}
    → AllFull n front
    → IsChunk n back
    → IsRow n (front ++ back ∷ [])
AllFull-IsRow n [] f l = l
AllFull-IsRow n (c ∷ []) f l = (f.0, f.1, l)
AllFull-IsRow n (c ∷ d ∷ cs) f l = (f.0, f.1, AllFull-IsRow n (d ∷ cs) f.2 l)

pub AllFull-concat :
    (n : ℕ) (front : List BufferChunk) {c : BufferChunk}
    → AllFull n front
    → IsChunk n c
    → c.write_cursor ≡ n
    → AllFull n (front ++ c ∷ [])
AllFull-concat n [] f l e = (l, e, tt)
AllFull-concat n (d ∷ cs) f l e = (f.0, f.1, AllFull-concat n cs f.2 l e)

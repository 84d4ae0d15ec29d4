-- ===== src/Utils/ByteBuffer/Size.antt =====
-- `size` computes from the number of chunks and two cursors how many bytes the buffer holds.
use oos.Prelude.{ℕ, suc, ◌*◌, ◌≡◌, ap, List, [], ◌∷◌, ◌++◌, length, length-append, arith, some}
use oos.Utils.ByteBuffer.{BufferChunk, used, size}
use oos.Utils.ByteBuffer.Chunks.{
  unread, contents, IsChunk, IsBuffer, AllFull, AllUnread, AllUnread-split, TailUnread,
  contents-append, length-unread, split_back-concat, IsRow-Splits,
}

length-contents_full :
    (n : ℕ) (cs : List BufferChunk)
    → AllFull n cs
    → AllUnread cs
    → length (contents cs) ≡ length cs * n
unfolding used
length-contents_full n [] f u = omega arith
length-contents_full n (c ∷ cs) f u = omega (
  arith,
  length-append (unread c) (contents cs),
  length-unread n c f.0,
  length-contents_full n cs f.2 u.1,
  f.1,
  u.0,
)

size-splits :
    (n : ℕ) (front : List BufferChunk) (back : BufferChunk)
    → AllFull n front
    → IsChunk n back
    → TailUnread (front ++ back ∷ [])
    → size n (front ++ back ∷ []) ≡ some (length (contents (front ++ back ∷ [])))
unfolding size used
size-splits n [] back f v u = ap some (
    omega (
      arith,
      length-append (unread back) [],
      length-unread n back v,
      v.cells_size,
      v.read_le_write,
      v.write_le_size,
    ))
size-splits n (c ∷ front) back f v u =
    let r = AllUnread-split front (back ∷ []) u in
    let tail = contents (front ++ back ∷ []) in
    rw (split_back-concat (c ∷ front) back) (
      ap some (
        omega (
          arith,
          length-append (unread c) tail,
          ap length (contents-append front (back ∷ [])),
          length-append (contents front) (contents (back ∷ [])),
          length-append (unread back) [],
          ap (λ (t : ℕ). suc t * n) (length-append front (back ∷ [])),
          length-contents_full n front f.2 r.0,
          length-unread n c f.0,
          length-unread n back v,
          f.1,
          r.1.0,
          f.0.read_le_write,
          v.cells_size,
          v.write_le_size,
        )))

-- The size of a well-formed buffer is the number of bytes that it holds.
size-contents :
    (n : ℕ) (chunk_list : List BufferChunk)
    → IsBuffer n chunk_list
    → size n chunk_list ≡ some (length (contents chunk_list))
size-contents n chunk_list v =
    let s = IsRow-Splits n chunk_list v.row in
    rw s.splits (size-splits n s.front s.back s.full s.last (rw s.splits at v.tail))

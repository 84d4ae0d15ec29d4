-- ===== src/Utils/ByteBuffer.antt =====
-- src/utils/byte_buffer.cpp and include/matador/utils/byte_buffer.hpp: a queue of bytes over a list
-- of arrays of one size. `fresh` is the array of a new chunk, whose contents C++ leaves undefined;
-- `BUF_SIZE` is a parameter, so that the tests run on small arrays, and the class's own
-- number is `class_buf_size`. `none` is undefined behaviour (`front()` or `back()` of an empty list), or
-- that the fuel of `append` ran out.
pub mod Chunks
pub mod Append
pub mod Release
pub mod Size
mod Tests
use oos.Prelude.{
  ℕ, zero, suc, ◌+◌, ◌-◌, ◌*◌, ◌^◌, Bool, true, false, List, [], ◌∷◌, ◌++◌, Option, none, some,
  length, take, drop, ltb, leb, if◌then◌else◌,
}
use oos.Prelude.Bytes.{Bytes}
use oos.Prelude.Fallible.{◌>>=◌}

-- `enum { BUF_SIZE = 1 << 14 }`
abbrev pub class_buf_size : ℕ
class_buf_size = 2 ^ 14

-- `struct buffer_chunk`
pub record BufferChunk : Type 0 where
  pub cells : Bytes
  pub read_cursor : ℕ
  pub write_cursor : ℕ

unfoldable pub available : BufferChunk → ℕ
available c = length c.cells - c.write_cursor

unfoldable pub used : BufferChunk → ℕ
used c = c.write_cursor - c.read_cursor

unfoldable pub released : BufferChunk → ℕ
released c = c.read_cursor

-- `memcpy(&chunk.data[chunk.write_cursor], …)`, then `chunk.write_cursor += …`
unfoldable pub fill : BufferChunk → Bytes → BufferChunk
fill c bytes = record c {
  cells = take c.write_cursor c.cells ++ (bytes ++ drop (c.write_cursor + length bytes) c.cells);
  write_cursor = c.write_cursor + length bytes;
}

-- `std::copy` of `n` bytes behind the read cursor
unfoldable pub peek : BufferChunk → ℕ → Bytes
peek c n = take n (drop c.read_cursor c.cells)

-- The list without its last chunk, and `chunk_list_.back()`.
unfoldable pub split_back : List BufferChunk → Option (List BufferChunk × BufferChunk)
split_back [] = none
split_back (c ∷ []) = some ([], c)
split_back (c ∷ d ∷ cs) = elim (split_back (d ∷ cs)) [
  | none ↦ none
  | some (front, back) ↦ some (c ∷ front, back)
]

-- `buffer_chunk()`
unfoldable pub buffer_chunk : Bytes → BufferChunk
buffer_chunk fresh = record { cells = fresh; read_cursor = 0; write_cursor = 0 }

unfoldable pub byte_buffer : Bytes → List BufferChunk
unfolding buffer_chunk
byte_buffer fresh = buffer_chunk fresh ∷ []

-- The `while` loop of `append` and the `if` behind it, on the list `front ++ back ∷ []`. `bytes` are
-- those that are not written yet, so its length is the source's `size`.
unfoldable pub append_loop :
    ℕ → Bytes → List BufferChunk → BufferChunk → Bytes → Option (List BufferChunk)
unfolding available fill buffer_chunk
append_loop zero fresh front back bytes = none
append_loop (suc fuel) fresh front back bytes =
    let room = available back in
    let rest =
      append_loop fuel fresh (front ++ fill back (take room bytes) ∷ []) (buffer_chunk fresh)
        (drop room bytes) in
    if ltb room (length bytes)
    then rest
    else some (front ++ (if ltb 0 (length bytes) then fill back bytes else back) ∷ [])

unfoldable pub append : Bytes → List BufferChunk → Bytes → Option (List BufferChunk)
unfolding append_loop split_back
append fresh chunk_list bytes = do
  (front, back) ← split_back chunk_list
  append_loop (length bytes + 2) fresh front back bytes

-- The `while` loop of `release`: the bytes copied so far, the chunks left and the size left.
unfoldable pub release_loop : List BufferChunk → ℕ → Bytes → Bytes × List BufferChunk × ℕ
unfolding used peek
release_loop [] size out = (out, [], size)
release_loop (c ∷ cs) size out =
    let rest = release_loop cs (size - used c) (out ++ peek c (used c)) in
    if leb (used c) size then rest else (out, c ∷ cs, size)

-- The `if (size > 0)` behind the loop.
unfoldable pub release_rest : Bytes × List BufferChunk × ℕ → Option (Bytes × List BufferChunk)
unfolding peek
release_rest (out, chunks, zero) = some (out, chunks)
release_rest (out, [], suc size) = none
release_rest (out, c ∷ cs, suc size) =
    some (out ++ peek c (suc size), record c { read_cursor = c.read_cursor + suc size } ∷ cs)

-- `if (chunk_list_.empty()) chunk_list_.push_back(buffer_chunk());`
unfoldable pub renew : Bytes → List BufferChunk → List BufferChunk
unfolding buffer_chunk
renew fresh [] = buffer_chunk fresh ∷ []
renew fresh (c ∷ cs) = c ∷ cs

unfoldable pub release : Bytes → List BufferChunk → ℕ → Option (Bytes × List BufferChunk)
unfolding release_loop release_rest renew
release fresh chunk_list size = do
  (out, chunks) ← release_rest (release_loop chunk_list size [])
  some (out, renew fresh chunks)

-- The first `return` of `size()`; the code behind it is never reached.
unfoldable pub size : ℕ → List BufferChunk → Option ℕ
unfolding split_back available released
size buf_size [] = none
size buf_size (c ∷ cs) = do
  (front, back) ← split_back (c ∷ cs)
  some (length (c ∷ cs) * buf_size - available back - released c)

unfoldable pub clear : Bytes → List BufferChunk → List BufferChunk
unfolding byte_buffer
clear fresh chunk_list = byte_buffer fresh

-- ===== src/Utils/ByteBuffer/Tests.antt =====
-- The buffer on arrays of four cells: bytes that cross chunks, a partial read, the size, and the
-- theorems at that buffer.
use oos.Prelude.{◌≡◌, refl, List, [], ◌∷◌, ◌++◌, take, drop, some, none, arith}
use oos.Prelude.Bytes.{Bytes, codes}
use oos.Prelude.Fallible.{◌>>=◌}
use oos.Utils.ByteBuffer.{BufferChunk, byte_buffer, append, release, size}
use oos.Utils.ByteBuffer.Chunks.{contents, IsBuffer, byte_buffer-IsBuffer}
use oos.Utils.ByteBuffer.Append.{Holds, contents-append_lem}
use oos.Utils.ByteBuffer.Release.{Releases, release_lem}

abbrev fresh : Bytes
fresh = 9 ∷ 9 ∷ 9 ∷ 9 ∷ []

abbrev start : List BufferChunk
start = byte_buffer fresh

start-IsBuffer : IsBuffer 4 start
start-IsBuffer = byte_buffer-IsBuffer 4 fresh refl

abbrev text : Bytes
text = codes "hello world"

-- Two writes, a read of seven bytes and a read of the rest.
round_trip :
    (do a ← append fresh start text; b ← append fresh a (codes "!?"); release fresh b 7)
    ≡ some (
      codes "hello w",
      record { cells = codes "o wo"; read_cursor = 3; write_cursor = 4 }
          ∷ record { cells = codes "rld!"; read_cursor = 0; write_cursor = 4 }
          ∷ record { cells = codes "?" ++ 9 ∷ 9 ∷ 9 ∷ []; read_cursor = 0; write_cursor = 1 }
          ∷ [],
    )
unfolding append release byte_buffer
round_trip = refl

too_much : (do a ← append fresh start text; release fresh a 12) ≡ none
unfolding append release byte_buffer
too_much = refl

held : (do a ← append fresh start text; size 4 a) ≡ some 11
unfolding append size byte_buffer
held = refl

contents-append_lem_example : Holds 4 (append fresh start text) (contents start ++ text)
contents-append_lem_example =
    contents-append_lem 4 fresh refl (omega arith) start text start-IsBuffer

abbrev filled : List BufferChunk
filled =
    record { cells = codes "abcd"; read_cursor = 1; write_cursor = 4 }
    ∷ record { cells = codes "ef" ++ 9 ∷ 9 ∷ []; read_cursor = 0; write_cursor = 2 }
    ∷ []

filled-IsBuffer : IsBuffer 4 filled
filled-IsBuffer = record { row = (omega arith, refl, omega arith); tail = (refl, tt) }

release_lem_example :
    Releases 4 (release fresh filled 4) (take 4 (contents filled)) (drop 4 (contents filled))
release_lem_example = release_lem 4 fresh filled 4 refl filled-IsBuffer (omega arith)

-- ===== src/Utils/ByteBuffer/Append.antt =====
-- `append` puts its bytes behind those that the buffer holds, over as many chunks as they take.
use oos.Prelude.{
  ℕ, zero, suc, ◌+◌, ◌-◌, ◌≤◌, ◌<◌, ◌≡◌, refl, sym, ap, ◌∙◌, List, [], ◌∷◌, ◌++◌, append_assoc,
  append-nil, length, take, drop, length-take, length-drop, take-append-drop, arith, some,
  Bool-cases, inl, inr, ltb, if◌then◌else◌, Option, lt→ltb, ltb→lt,
}
use oos.Prelude.Bytes.{Bytes}
use oos.Utils.ByteBuffer.{BufferChunk, available, fill, buffer_chunk, append_loop, append}
use oos.Utils.ByteBuffer.Chunks.{
  IsBuffer, TailUnread, TailUnread-last, TailUnread-concat, unread, contents, IsChunk, AllFull,
  buffer_chunk-IsChunk, contents-append, fill-IsChunk, unread-fill, split_back-concat, IsRow-Splits,
  AllFull-IsRow, AllFull-concat,
}

-- A run that succeeds with a valid buffer that holds `bytes`.
pub record Holds (n : ℕ) (r : Option (List BufferChunk)) (bytes : Bytes) : Type 0 where
  pub chunks : List BufferChunk
  pub returns : r ≡ some chunks
  pub valid : IsBuffer n chunks
  pub holds : contents chunks ≡ bytes

-- The last step: what is left fits into the last chunk.
fill_last : BufferChunk → Bytes → BufferChunk
fill_last back bytes = if ltb 0 (length bytes) then fill back bytes else back

fill_last-read :
    (back : BufferChunk) (bytes : Bytes) → (fill_last back bytes).read_cursor ≡ back.read_cursor
unfolding fill_last fill
fill_last-read back [] = refl
fill_last-read back (b ∷ bytes) = rw (lt→ltb 0 (suc (length bytes)) (omega arith))

module _ (n : ℕ) (c : BufferChunk) (v : IsChunk n c) where
  fill_last-IsChunk : (bytes : Bytes) → length bytes ≤ available c → IsChunk n (fill_last c bytes)
  unfolding fill_last
  fill_last-IsChunk [] h = v
  fill_last-IsChunk (b ∷ bytes) h =
      rw (lt→ltb 0 (suc (length bytes)) (omega arith)) (fill-IsChunk n c (b ∷ bytes) v h)

  unread-fill_last :
      (bytes : Bytes) → length bytes ≤ available c → unread (fill_last c bytes) ≡ unread c ++ bytes
  unfolding fill_last
  unread-fill_last [] h = sym (append-nil (unread c))
  unread-fill_last (b ∷ bytes) h =
      rw (lt→ltb 0 (suc (length bytes)) (omega arith)) (unread-fill n c (b ∷ bytes) v h)

round_fuel :
    (room left fuel : ℕ)
    → left < suc fuel
    → (room ≡ 0 → left + 1 < suc fuel)
    → room < left
    → left - room < fuel
round_fuel zero left fuel h k less = omega (arith, k refl)
round_fuel (suc room) left fuel h k less = omega arith

-- The state of the loop after it has filled the last chunk with all the room that it has.
module _ (n : ℕ) (fresh : Bytes) (alloc : length fresh ≡ n) (positive : 0 < n) where
  filled-full :
      (c : BufferChunk) (bytes : Bytes)
      → IsChunk n c
      → available c < length bytes
      → (fill c (take (available c) bytes)).write_cursor ≡ n
  unfolding fill available
  filled-full c bytes v h =
      omega
        (arith, length-take (length c.cells - c.write_cursor) bytes, v.cells_size, v.write_le_size)

  contents_round :
      (front : List BufferChunk) (back : BufferChunk) (bytes : Bytes)
      → IsChunk n back
      → available back < length bytes
      → contents (front ++ fill back (take (available back) bytes) ∷ [])
          ++ (unread (buffer_chunk fresh) ++ drop (available back) bytes)
        ≡ contents front ++ (unread back ++ bytes)
  unfolding buffer_chunk
  contents_round front back bytes v h =
      let room = available back in
      let e = unread-fill n back (take room bytes) v (omega (arith, length-take room bytes)) in
      rw (contents-append front (fill back (take room bytes) ∷ [])) (
        rw (append-nil (unread (fill back (take room bytes)))) (
          rw e (
            append_assoc (contents front) (unread back ++ take room bytes) (drop room bytes)
            ∙ ap (◌++◌ (contents front)) (
                append_assoc (unread back) (take room bytes) (drop room bytes)
                ∙ ap (◌++◌ (unread back)) (take-append-drop room bytes)))))

  append_loop-Holds :
      (fuel : ℕ) (front : List BufferChunk) (back : BufferChunk) (bytes : Bytes)
      → AllFull n front
      → IsChunk n back
      → TailUnread (front ++ back ∷ [])
      → length bytes < fuel
      → (available back ≡ 0 → length bytes + 1 < fuel)
      → Holds n (append_loop fuel fresh front back bytes) (contents front ++ (unread back ++ bytes))
  unfolding append_loop
  append_loop-Holds zero front back bytes f v t h k = elim h [ ]
  append_loop-Holds (suc fuel) front back bytes f v t h k =
      elim (Bool-cases (ltb (available back) (length bytes))) [
        | inl more ↦
            let room = available back in
            let less = ltb→lt room (length bytes) more in
            rw more (
              rw (← contents_round front back bytes v less) (
                append_loop-Holds fuel (front ++ fill back (take room bytes) ∷ [])
                  (buffer_chunk fresh) (drop room bytes)
                  (AllFull-concat n front f
                    (fill-IsChunk n back (take room bytes) v
                      (omega (arith, length-take room bytes)))
                    (filled-full back bytes v less))
                  (buffer_chunk-IsChunk n fresh alloc)
                  (TailUnread-concat front (fill back (take room bytes)) (buffer_chunk fresh)
                    (TailUnread-last front back (fill back (take room bytes)) t refl) refl)
                  (omega
                    (arith, length-drop room bytes, round_fuel room (length bytes) fuel h k less))
                  (omega arith)))
        | inr fits ↦ rw fits (record {
          chunks = front ++ fill_last back bytes ∷ [];
          returns = unfold fill_last in refl;
          valid = record {
            row = AllFull-IsRow n front f (fill_last-IsChunk n back v bytes (ground arith));
            tail = TailUnread-last front back (fill_last back bytes) t (fill_last-read back bytes);
          };
          holds =
              contents-append front (fill_last back bytes ∷ [])
              ∙ ap (◌++◌ (contents front)) (
                  append-nil (unread (fill_last back bytes))
                  ∙ unread-fill_last n back v bytes (ground arith));
        })
      ]

  -- On a well-formed buffer with arrays of at least one byte, `append` ends, keeps the buffer
  -- well-formed, and leaves the old bytes with the new ones behind them.
  pub contents-append_lem :
      (chunk_list : List BufferChunk) (bytes : Bytes)
      → IsBuffer n chunk_list
      → Holds n (append fresh chunk_list bytes) (contents chunk_list ++ bytes)
  unfolding append
  contents-append_lem chunk_list bytes v =
      let s = IsRow-Splits n chunk_list v.row in
      let e : contents (s.front ++ s.back ∷ []) ++ bytes
          ≡ contents s.front ++ (unread s.back ++ bytes) =
        rw (contents-append s.front (s.back ∷ []), append-nil (unread s.back))
          (append_assoc (contents s.front) (unread s.back) bytes) in
      rw (s.splits, split_back-concat s.front s.back)
        (rw e (
          append_loop-Holds (length bytes + 2) s.front s.back bytes s.full s.last
            (rw s.splits at v.tail) (omega arith) (omega arith)))

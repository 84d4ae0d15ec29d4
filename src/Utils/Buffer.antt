-- ===== src/Utils/Buffer.antt =====
-- src/utils/buffer.cpp and include/matador/utils/buffer.hpp: a buffer of a fixed capacity. `none` is
-- the `out_of_range` of `append`. The lock is not modelled.
mod Append
mod Tests
use oos.Prelude.{
  ℕ, ◌+◌, Bool, List, [], ◌∷◌, ◌++◌, Option, none, some, length, take, drop, ◌==◌, ltb,
  if◌then◌else◌,
}
use oos.Prelude.Bytes.{Bytes}

-- the members of `buffer`: the array and `size_`
pub record Buffer : Type 0 where
  pub cells : Bytes
  pub filled : ℕ

unfoldable pub capacity : Buffer → ℕ
capacity buf = length buf.cells

unfoldable pub append : Buffer → Bytes → Option Buffer
unfolding capacity
append buf chunk =
    if ltb (capacity buf) (buf.filled + length chunk)
    then none
    else some (record {
      cells = take buf.filled buf.cells ++ (chunk ++ drop (buf.filled + length chunk) buf.cells);
      filled = buf.filled + length chunk;
    })

-- `size(s)`
unfoldable pub resize : ℕ → Buffer → Buffer
resize s buf = record buf { filled = s }

unfoldable pub empty : Buffer → Bool
empty buf = buf.filled == 0

unfoldable pub clear : Buffer → Buffer
clear buf = record buf { filled = 0 }

-- `append(const buffer&)`, of `data()` up to `size()`
unfoldable pub append_buffer : Buffer → Buffer → Option Buffer
unfolding append
append_buffer buf other = append buf (take other.filled other.cells)

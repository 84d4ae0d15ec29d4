-- ===== src/Utils/Sequencer.antt =====
-- src/utils/sequencer.cpp: the default sequencer, a number of 64 bits. `sequencer` passes each call on.
mod Fresh
mod Tests
use oos.Prelude.{ℕ, ◌+◌, ◌%◌, ◌^◌, List, [], ◌∷◌, ltb, if◌then◌else◌}

pub record DefaultSequencer : Type 0 where
  pub number : ℕ

-- Each call returns the sequencer and its result.
unfoldable pub init : DefaultSequencer → DefaultSequencer × ℕ
init s = (s, s.number)

unfoldable pub reset : ℕ → DefaultSequencer → DefaultSequencer × ℕ
reset id s = (record { number = id }, id)

unfoldable pub next : DefaultSequencer → DefaultSequencer × ℕ
next s = let n = (s.number + 1) % 2 ^ 64 in (record { number = n }, n)

unfoldable pub current : DefaultSequencer → ℕ
current s = s.number

unfoldable pub update : ℕ → DefaultSequencer → DefaultSequencer × ℕ
update id s = let n = if ltb s.number id then id else s.number in (record { number = n }, n)

-- The ids of objects that are read in, one after the other
unfoldable pub update_all : List ℕ → DefaultSequencer → DefaultSequencer
unfolding update
update_all [] s = s
update_all (id ∷ ids) s = update_all ids (update id s).0

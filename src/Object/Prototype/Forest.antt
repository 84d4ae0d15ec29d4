-- ===== src/Object/Prototype/Forest.antt =====
-- The shape of a tree of nodes, and when a store of nodes holds it.
use oos.Prelude.{ℕ, suc, ◌+◌, ◌≡◌, false, Option, none, some, List, [], ◌∷◌, ◌++◌, ◌==◌}
use oos.Object.Prototype.{Nodes}

-- Siblings, each with its two sentinels, its children and the siblings behind it.
pub data Forest : Type 0 where
  nil : Forest
  tree : (addr first last : ℕ) (children rest : Forest) → Forest

abbrev pub preorder : Forest → List ℕ
preorder nil = []
preorder (tree x f k cs rest) = x ∷ preorder cs ++ preorder rest

abbrev pub size : Forest → ℕ
size nil = 0
size (tree x f k cs rest) = suc (size cs + size rest)

-- The siblings `ts` stand behind `p` and in front of the sentinel `l`, under `parent`, at the depth
-- `d`; so do, under each of them, its children.
abbrev pub Chain : Nodes → Option ℕ → ℕ → ℕ → ℕ → Forest → Type 0
Chain h parent l d p nil = ((h p).next ≡ some l) × ((h l).prev ≡ some p)
Chain h parent l d p (tree x f k cs rest) =
    ((h p).next ≡ some x)
    × ((h x).prev ≡ some p)
    × ((x == l) ≡ false)
    × ((h x).parent ≡ parent)
    × ((h x).depth ≡ d)
    × ((h x).first ≡ some f)
    × ((h x).last ≡ some k)
    × ((h f).prev ≡ none)
    × ((h f).last ≡ none)
    × Chain h (some x) k (suc d) f cs
    × Chain h parent l d x rest

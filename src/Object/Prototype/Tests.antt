-- ===== src/Object/Prototype/Tests.antt =====
-- The tree of prototypes at a concrete store.
use oos.Prelude.{
  ◌⊎◌, ℕ, ◌≡◌, refl, true, false, none, some, List, [], ◌∷◌, arith, ◌==◌, if◌then◌else◌, AllOf,
}
use oos.Prelude.Outcome.{ok}
use oos.Object.Prototype.{
  Node, Nodes, next_node_all, next_node, climb, previous_node, down, is_child_of, insert, unlink,
}
use oos.Object.Prototype.Forest.{Forest, nil, tree, Chain}
use oos.Object.Prototype.Walk.{Walk}
use oos.Object.Prototype.Back.{Back, walks-preorder}
use oos.Object.Prototype.Child.{is_child_of-preorder}
use oos.Object.Prototype.Shrink.{unlink-insert}
use oos.Object.Prototype.Grow.{insert-Chain}

abbrev look_up : List (ℕ × Node) → ℕ → Node
look_up [] a = record {
  parent = none;
  prev = none;
  next = none;
  first = none;
  last = none;
  depth = 0;
}
look_up ((b, n) ∷ rest) a = if a == b then n else look_up rest a

-- Two roots, 1 and 4, and under 1 the nodes 2 and 3; the node 5 is not linked. The sentinels of the
-- node n are 10 n + 1 and 10 n + 2, those of the store 100 and 101.
abbrev small_store : Nodes
small_store = look_up (
    (
      100,
      record { parent = none; prev = none; next = some 1; first = none; last = none; depth = 0 },
    )
    ∷ (
      101,
      record { parent = none; prev = some 4; next = none; first = none; last = none; depth = 0 },
    )
    ∷ (
      1,
      record {
        parent = none;
        prev = some 100;
        next = some 4;
        first = some 11;
        last = some 12;
        depth = 0;
      },
    )
    ∷ (
      4,
      record {
        parent = none;
        prev = some 1;
        next = some 101;
        first = some 41;
        last = some 42;
        depth = 0;
      },
    )
    ∷ (
      2,
      record {
        parent = some 1;
        prev = some 11;
        next = some 3;
        first = some 21;
        last = some 22;
        depth = 1;
      },
    )
    ∷ (
      3,
      record {
        parent = some 1;
        prev = some 2;
        next = some 12;
        first = some 31;
        last = some 32;
        depth = 1;
      },
    )
    ∷ (
      11,
      record { parent = none; prev = none; next = some 2; first = none; last = none; depth = 0 },
    )
    ∷ (
      12,
      record { parent = none; prev = some 3; next = none; first = none; last = none; depth = 0 },
    )
    ∷ (
      21,
      record { parent = none; prev = none; next = some 22; first = none; last = none; depth = 0 },
    )
    ∷ (
      22,
      record { parent = none; prev = some 21; next = none; first = none; last = none; depth = 0 },
    )
    ∷ (
      31,
      record { parent = none; prev = none; next = some 32; first = none; last = none; depth = 0 },
    )
    ∷ (
      32,
      record { parent = none; prev = some 31; next = none; first = none; last = none; depth = 0 },
    )
    ∷ (
      41,
      record { parent = none; prev = none; next = some 42; first = none; last = none; depth = 0 },
    )
    ∷ (
      42,
      record { parent = none; prev = some 41; next = none; first = none; last = none; depth = 0 },
    )
    ∷ (
      5,
      record {
        parent = none;
        prev = none;
        next = none;
        first = some 51;
        last = some 52;
        depth = 0;
      },
    )
    ∷ (
      51,
      record { parent = none; prev = none; next = some 52; first = none; last = none; depth = 0 },
    )
    ∷ (
      52,
      record { parent = none; prev = some 51; next = none; first = none; last = none; depth = 0 },
    )
    ∷ [])

abbrev below_one : Forest
below_one = tree 2 21 22 nil (tree 3 31 32 nil nil)

abbrev both_roots : Forest
both_roots = tree 1 11 12 below_one (tree 4 41 42 nil nil)

two_children : Chain small_store (some 1) 12 1 11 below_one
two_children = (
  refl,
  refl,
  refl,
  refl,
  refl,
  refl,
  refl,
  refl,
  refl,
  (refl, refl),
  (refl, refl, refl, refl, refl, refl, refl, refl, refl, (refl, refl), (refl, refl)),
)

two_roots : Chain small_store none 101 0 100 both_roots
two_roots = (
  refl,
  refl,
  refl,
  refl,
  refl,
  refl,
  refl,
  refl,
  refl,
  two_children,
  (refl, refl, refl, refl, refl, refl, refl, refl, refl, (refl, refl), (refl, refl)),
)

next_of_three : next_node_all 5 small_store 3 ≡ ok (some 4)
unfolding next_node climb
next_of_three = refl

previous_of_four : previous_node 5 small_store 4 ≡ ok (some 3)
unfolding previous_node down
previous_of_four = refl

walks-preorder_example :
    Walk 6 small_store none (some 1) (1 ∷ 2 ∷ 3 ∷ 4 ∷ []) (some 101)
    × Back 6 small_store (previous_node 6 small_store 101) (4 ∷ 3 ∷ 2 ∷ 1 ∷ []) none
walks-preorder_example =
    walks-preorder 6 small_store both_roots 101 0 100 two_roots refl refl (omega arith)

is_child_of-preorder_example :
    AllOf (λ x. is_child_of 4 small_store x 1 ≡ ok true) (1 ∷ 2 ∷ 3 ∷ [])
    × AllOf (λ x. is_child_of 4 small_store x 1 ≡ ok false) (4 ∷ [])
is_child_of-preorder_example =
    is_child_of-preorder small_store 1 12 11 4 42 41 0 4 below_one nil refl refl refl two_children
      (refl, refl) (omega arith) (omega arith)

insert-Chain_example :
    (h' : Nodes) × (insert small_store 1 5 ≡ ok h')
    × Chain h' (some 1) 12 1 11 (tree 2 21 22 nil (tree 3 31 32 nil (tree 5 51 52 nil nil)))
insert-Chain_example =
    insert-Chain small_store 1 5 11 12 51 52 0 below_one refl refl (omega arith) refl refl refl refl
      refl refl (ground arith) two_children

unlink-insert_example :
    (h' : Nodes) × (h'' : Nodes) × (insert small_store 1 5 ≡ ok h')
    × (unlink h' 5 ≡ ok h'')
    × ((b : ℕ) → (b ≡ 5) ⊎ (h'' b ≡ small_store b))
unlink-insert_example = unlink-insert small_store 1 5 12 3 refl refl refl (ground arith)

-- ===== src/Object/Prototype.antt =====
-- The tree of prototype nodes of src/object/prototype_node.cpp: the fields that link the nodes, and
-- the functions that walk over them. include/matador/utils/tree.hpp has the same walk in its
-- iterators.
--
-- Nodes are numbers, and a store of nodes gives each its fields; a null pointer is `none`, and to
-- follow one is undefined behaviour. Each loop takes fuel.
pub mod Forest
pub mod Walk
pub mod Back
pub mod Child
pub mod Apart
pub mod Grow
pub mod Shrink
pub mod Tests
use oos.Prelude.{
  ℕ, zero, suc, ◌%◌, ◌^◌, Bool, true, false, not, ◌&&◌, Option, none, some, ltb, ◌==◌,
  if◌then◌else◌,
}
use oos.Prelude.Outcome.{Outcome, ok, undefined, out_of_fuel, ◌>>=◌}

pub record Node : Type 0 where
  pub parent : Option ℕ
  pub prev : Option ℕ
  pub next : Option ℕ
  pub first : Option ℕ
  pub last : Option ℕ
  pub depth : ℕ

abbrev pub Nodes : Type 0
Nodes = ℕ → Node

-- `==` of two pointers.
abbrev pub same : Option ℕ → Option ℕ → Bool
same none none = true
same (some a) (some b) = a == b
same _ _ = false

-- `while (node->parent && node->next == node->parent->last.get() && node->parent != root)
-- node = node->parent;` and then `return node->next`.
unfoldable pub climb : ℕ → Nodes → Option ℕ → ℕ → Outcome (Option ℕ)
climb zero h root a = out_of_fuel
climb (suc n) h root a = elim (h a).parent [
  | none ↦ ok (h a).next
  | some p ↦
      let up = climb n h root p in
      if same (h a).next (h p).last && not (same (some p) root) then up else ok (h a).next
]

-- `next_node(root)`
unfoldable pub next_node : ℕ → Nodes → Option ℕ → ℕ → Outcome (Option ℕ)
next_node n h root a = elim (h a).first [
  | none ↦ climb n h root a
  | some f ↦ if not (same (h f).next (h a).last) then ok (h f).next else climb n h root a
]

-- `next_node()` has the same loop without the test of `root`, which no parent is.
abbrev pub next_node_all : ℕ → Nodes → ℕ → Outcome (Option ℕ)
next_node_all n h a = next_node n h none a

-- `while (node->last && node->first->next != node->last.get()) node = node->last->prev;`
unfoldable pub down : ℕ → Nodes → ℕ → Outcome ℕ
down zero h a = out_of_fuel
down (suc n) h a = elim (h a).last [
  | none ↦ ok a
  | some l ↦ elim (h a).first [
    | none ↦ undefined
    | some f ↦ elim (h l).prev [
      | none ↦ if same (h f).next (some l) then ok a else undefined
      | some b ↦ let below = down n h b in if same (h f).next (some l) then ok a else below
    ]
  ]
]

-- `previous_node()`
unfoldable pub previous_node : ℕ → Nodes → ℕ → Outcome (Option ℕ)
previous_node n h a = elim (h a).prev [
  | none ↦ ok (h a).parent
  | some p ↦ elim (h p).prev [ none ↦ ok (h a).parent | some _ ↦ down n h p >>= λ b. ok (some b) ]
]

-- `while (prnt->depth < node->depth) node = node->parent;`
unfoldable pub ancestor : ℕ → Nodes → ℕ → ℕ → Outcome ℕ
ancestor zero h prnt a = out_of_fuel
ancestor (suc n) h prnt a = elim (h a).parent [
  | none ↦ if ltb (h prnt).depth (h a).depth then undefined else ok a
  | some p ↦
      let above = ancestor n h prnt p in if ltb (h prnt).depth (h a).depth then above else ok a
]

unfoldable pub is_child_of : ℕ → Nodes → ℕ → ℕ → Outcome Bool
is_child_of n h a prnt = ancestor n h prnt a >>= λ b. ok (b == prnt)

-- `this->...` writes to one field of a node.
abbrev pub store : Nodes → ℕ → (Node → Node) → Nodes
store h a f = λ b. if b == a then f (h b) else h b

-- The first writes of `insert(child)`, to the child, and all of them, where `p` is `last->prev`.
abbrev pub link_child : Nodes → ℕ → ℕ → ℕ → Nodes
link_child h a child l =
    store h child (λ n. record n { parent = some a; prev = (h l).prev; next = some l })

unfoldable pub linked : Nodes → ℕ → ℕ → ℕ → ℕ → Nodes
linked h a child l p =
    let h2 = store (link_child h a child l) p (λ n. record n { next = some child }) in
    let h3 = store h2 l (λ n. record n { prev = some child }) in
    store h3 child (λ n. record n { depth = suc (h3 a).depth % 2 ^ 32 })

-- The links of `insert(child)`, behind the last child of `a`. Its proxies are not modelled.
unfoldable pub insert : Nodes → ℕ → ℕ → Outcome Nodes
insert h a child = elim (h a).last [
  | none ↦ undefined
  | some l ↦ elim (link_child h a child l l).prev [
    | none ↦ undefined
    | some p ↦ ok (linked h a child l p)
  ]
]

-- The writes of `unlink()` to a node between `p` and `q`.
unfoldable pub unlinked : Nodes → ℕ → ℕ → ℕ → Nodes
unlinked h a p q =
    let h1 = store h p (λ n. record n { next = (h a).next }) in
    let h2 = store h1 q (λ n. record n { prev = (h1 a).prev }) in
    store h2 a (λ n. record n { next = none; prev = none })

-- `unlink()`: the neighbours of the node, which it reads without a test, are `prev`, and `next` behind
-- the first write.
unfoldable pub unlink : Nodes → ℕ → Outcome Nodes
unlink h a = elim (h a).prev [
  | none ↦ undefined
  | some p ↦ elim (store h p (λ n. record n { next = (h a).next }) a).next [
    | none ↦ undefined
    | some q ↦ ok (unlinked h a p q)
  ]
]

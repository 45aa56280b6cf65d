-- ===== src/AvlTree/Erase.antt =====
-- `avl_tree_erase` and `_avl_splice_out` of src/avl_tree.c. The node to erase is known by its entry,
-- whose key leads down to it; `_avl_balance` goes up from the place of the removal.
pub mod Balance
pub mod Order
pub mod Inv
use Prim.Native.Nat.{Ordering}
use libsvr.Common.{ℕ, ◌-◌, ◌==◌, if◌then◌else◌, Option, none, some, List, [], ◌∷◌}
use libsvr.AvlTree.{Entry, Node, leaf, node, AvlTree, balance}

-- `_avl_splice_out` at a node with one child at most: the child takes its place.
unfoldable pub splice_out : Node → Node → Node
splice_out l leaf = l
splice_out l (node a b h x) = node a b h x

-- The first node of a subtree is taken out: the `successor`, which is `node->next`, if the subtree is
-- the right child of `node`.
unfoldable pub take_first : Node → Option (Entry × Node)
take_first leaf = none
take_first (node l r h e) = elim (take_first l) [
  | none ↦ some (e, splice_out leaf r)
  | some taken ↦ some (taken.0, balance taken.1 r e)
]

-- the node is at hand: with two children the successor takes its place
unfoldable pub erase_here : Node → Node → Node
erase_here leaf r = splice_out leaf r
erase_here (node a b h x) r = elim (take_first r) [
  | none ↦ splice_out (node a b h x) r
  | some taken ↦ balance (node a b h x) taken.1 taken.0
]

unfoldable pub erase_node : (ℕ → ℕ → Ordering) → ℕ → Node → Node
erase_node cmp key leaf = leaf
erase_node cmp key (node l r h e) = elim (cmp key e.key) [
  | Ordering.lt ↦ balance (erase_node cmp key l) r e
  | Ordering.gt ↦ balance l (erase_node cmp key r) e
  | Ordering.eq ↦ erase_here l r
]

-- the links of `prev` and `next` to each other
unfoldable pub unlink : ℕ → List ℕ → List ℕ
unlink p [] = []
unlink p (a ∷ rest) = if a == p then rest else a ∷ unlink p rest

-- The null pointer is ignored.
unfoldable pub avl_tree_erase : (ℕ → ℕ → Ordering) → AvlTree → Option Entry → AvlTree
avl_tree_erase cmp t none = t
avl_tree_erase cmp t (some e) = record t {
  root = erase_node cmp e.key t.root;
  size = t.size - 1;
  chain = unlink e.addr t.chain;
}

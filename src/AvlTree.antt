-- ===== src/AvlTree.antt =====
-- The AVL tree of src/avl_tree.c. A node is an address with its key and value; `avl_child` are the
-- subtrees of `Node`, and `avl_parent` is the way back up a recursion. The `prev` and `next` links
-- are `chain`, the addresses from `head` to `tail`.
pub mod Orders
pub mod Shape
pub mod Balance
pub mod Insert
pub mod Lookup
pub mod Chain
pub mod Inv
pub mod Alike
pub mod Overwrite
pub mod Operations
pub mod Walk
pub mod Erase
mod Tests
use Prim.Native.Nat.{compare, Ordering}
use libsvr.Common.{
  ℕ, zero, suc, ◌+◌, ◌-◌, Bool, true, false, Option, none, some, ltb, leb, ◌==◌, not, if◌then◌else◌,
  List, [], ◌∷◌, ◌++◌,
}

-- `key` and `value` are the words of `union un_value`, an integer or a pointer.
pub record Entry : Type 0 where
  pub addr : ℕ
  pub key : ℕ
  pub value : ℕ

-- `leaf` is the null pointer.
pub data Node : Type 0 where
  leaf : Node
  node : Node → Node → ℕ → Entry → Node

pub record AvlTree : Type 0 where
  pub root : Node
  pub size : ℕ
  pub chain : List ℕ
  pub key_cmp : Option (ℕ → ℕ → Ordering)

-- `_avl_node_height`
abbrev pub node_height : Node → ℕ
node_height leaf = 0
node_height (node l r h e) = h

-- the new height of a node with these children
pub height_over : Node → Node → ℕ
height_over l r =
    if ltb (node_height r) (node_height l) then 1 + node_height l else 1 + node_height r

abbrev pub linked : Node → Node → Entry → Node
linked l r e = node l r (height_over l r) e

-- `_avl_roate`: the left (right) child takes the place of its parent, and both heights are set anew.
-- Without such a child there is nothing to rotate.
pub rotate_left_child : Node → Node → Entry → Node
rotate_left_child leaf r e = linked leaf r e
rotate_left_child (node a b h x) r e = linked a (linked b r e) x

pub rotate_right_child : Node → Node → Entry → Node
rotate_right_child l leaf e = linked l leaf e
rotate_right_child l (node a b h x) e = linked (linked l a e) b x

-- the two rotations of the grandchild on the inner side
pub rotate_twice_left : Node → Node → Entry → Node
rotate_twice_left leaf r e = linked leaf r e
rotate_twice_left (node a b h x) r e = rotate_left_child (rotate_right_child a b x) r e

pub rotate_twice_right : Node → Node → Entry → Node
rotate_twice_right l leaf e = linked l leaf e
rotate_twice_right l (node a b h x) e = rotate_right_child l (rotate_left_child a b x) e

-- `child_balance` is 0 or has the sign of `balance`, for a tall left child
abbrev pub leans_left : Node → Bool
leans_left leaf = true
leans_left (node a b h x) = leb (node_height b) (node_height a)

abbrev pub leans_right : Node → Bool
leans_right leaf = true
leans_right (node a b h x) = leb (node_height a) (node_height b)

-- one pass of the `while` of `_avl_balance`, at a node with these children
pub balance : Node → Node → Entry → Node
balance l r e =
    if node_height l == node_height r + 2
    then if leans_left l then rotate_left_child l r e else rotate_twice_left l r e
    else if node_height r == node_height l + 2
    then if leans_right r then rotate_right_child l r e else rotate_twice_right l r e
    else linked l r e

-- the order of the keys: `key_cmp`, or that of the pointers where it is null
abbrev pub user_order : AvlTree → ℕ → ℕ → Ordering
user_order t = elim t.key_cmp [ none ↦ compare | some cmp ↦ cmp ]

-- Where the descent for a key ends: at a node, or at an empty link of a node (left or right) or of
-- the tree.
pub data Spot : Type 0 where
  occupied : ℕ → Spot
  left_of : ℕ → Spot
  right_of : ℕ → Spot
  empty_root : Spot

module _ (cmp : ℕ → ℕ → Ordering) where
  -- the `while (*test)` of the insertions
  pub spot : ℕ → Node → Spot → Spot
  spot key leaf parent = parent
  spot key (node l r h e) parent = elim (cmp key e.key) [
    | Ordering.lt ↦ spot key l (left_of e.addr)
    | Ordering.gt ↦ spot key r (right_of e.addr)
    | Ordering.eq ↦ occupied e.addr
  ]

  -- A new node is linked at the end of the descent, and `_avl_balance` goes up from there.
  pub link_node : Entry → Node → Node
  link_node x leaf = node leaf leaf 1 x
  link_node x (node l r h e) = elim (cmp x.key e.key) [
    | Ordering.lt ↦ balance (link_node x l) r e
    | Ordering.gt ↦ balance l (link_node x r) e
    | Ordering.eq ↦ node l r h e
  ]

  -- The node at the end of the descent is changed in place.
  pub change_node : ℕ → (Entry → Entry) → Node → Node
  change_node key f leaf = leaf
  change_node key f (node l r h e) = elim (cmp key e.key) [
    | Ordering.lt ↦ node (change_node key f l) r h e
    | Ordering.gt ↦ node l (change_node key f r) h e
    | Ordering.eq ↦ node l r h (f e)
  ]

  -- the `while (node)` of the searches
  pub find : ℕ → Node → Option Entry
  find key leaf = none
  find key (node l r h e) = elim (cmp key e.key) [
    | Ordering.lt ↦ find key l
    | Ordering.gt ↦ find key r
    | Ordering.eq ↦ some e
  ]

-- `_avl_link_node` on the links: the new node goes before or behind its parent.
pub link_before : ℕ → ℕ → List ℕ → List ℕ
link_before p x [] = []
link_before p x (a ∷ rest) = if a == p then x ∷ a ∷ rest else a ∷ link_before p x rest

pub link_behind : ℕ → ℕ → List ℕ → List ℕ
link_behind p x [] = []
link_behind p x (a ∷ rest) = if a == p then a ∷ x ∷ rest else a ∷ link_behind p x rest

pub link_chain : Spot → ℕ → List ℕ → List ℕ
link_chain (occupied a) x rest = rest
link_chain (left_of p) x rest = link_before p x rest
link_chain (right_of p) x rest = link_behind p x rest
link_chain empty_root x rest = x ∷ []

-- a new node at the free spot, with `++tree->size`
pub link : (ℕ → ℕ → Ordering) → Spot → AvlTree → Entry → AvlTree
link cmp s t x = record t {
  root = link_node cmp x t.root;
  size = t.size + 1;
  chain = link_chain s x.addr t.chain;
}

-- The insertions take the address `fresh` of a node from the allocator, which they use only if they
-- link a node. They return the address of the node at the key. An existing node takes the value, by
-- `f`.
pub insert_by : (ℕ → ℕ → Ordering) → (ℕ → ℕ → Entry → Entry) → AvlTree → ℕ → ℕ → ℕ → AvlTree × ℕ
insert_by cmp f t fresh key value = elim (spot cmp key t.root empty_root) [
  | occupied a ↦ (record t { root = change_node cmp key (f key value) t.root }, a)
  | other ↦ (link cmp other t (record { addr = fresh; key = key; value = value }), fresh)
]

pub avl_tree_insert_integer : AvlTree → ℕ → ℕ → ℕ → AvlTree × ℕ
unfolding insert_by
avl_tree_insert_integer t fresh key user_data =
    insert_by compare (λ k v e. record e { value = v }) t fresh key user_data

pub avl_tree_insert_user : AvlTree → ℕ → ℕ → ℕ → AvlTree × ℕ
unfolding insert_by
avl_tree_insert_user t fresh key user_data =
    insert_by (user_order t) (λ k v e. record e { key = k; value = v }) t fresh key user_data

-- the result, and `*insert_or_exist_node`
pub try_insert_by : (ℕ → ℕ → Ordering) → AvlTree → ℕ → ℕ → ℕ → Bool × AvlTree × ℕ
try_insert_by cmp t fresh key value = elim (spot cmp key t.root empty_root) [
  | occupied a ↦ (false, t, a)
  | other ↦ (true, link cmp other t (record { addr = fresh; key = key; value = value }), fresh)
]

pub avl_tree_try_insert_integer : AvlTree → ℕ → ℕ → ℕ → Bool × AvlTree × ℕ
unfolding try_insert_by
avl_tree_try_insert_integer t fresh key user_data = try_insert_by compare t fresh key user_data

pub avl_tree_try_insert_user : AvlTree → ℕ → ℕ → ℕ → Bool × AvlTree × ℕ
unfolding try_insert_by
avl_tree_try_insert_user t fresh key user_data = try_insert_by (user_order t) t fresh key user_data

pub avl_tree_find_integer : AvlTree → ℕ → Option Entry
avl_tree_find_integer t key = find compare key t.root

pub avl_tree_find_user : AvlTree → ℕ → Option Entry
avl_tree_find_user t key = find (user_order t) key t.root

pub create_avl_tree : Option (ℕ → ℕ → Ordering) → AvlTree
create_avl_tree cmp = record { root = leaf; size = 0; chain = []; key_cmp = cmp }

pub avl_tree_clear : AvlTree → AvlTree
avl_tree_clear t = record t { root = leaf; size = 0; chain = [] }

-- ===== src/RbTree.antt =====
-- The red-black tree of src/rb_tree.c. A node holds its children, and `rb_parent` of the node at work
-- is the way up from it. The links between neighbours are those of the AVL tree and are left out.
pub mod Level
pub mod Insert
pub mod Descend
pub mod Inv
pub mod Erase
mod Tests
use Prim.Native.Nat.{compare, Ordering}
use libsvr.Common.{ℕ, ◌+◌, Bool, true, false, Option, none, some, List, [], ◌∷◌, if◌then◌else◌}
use libsvr.AvlTree.{Entry}

pub data Color : Type 0 where
  red : Color
  black : Color

-- `leaf` is the null pointer; a node has its color, `rb_left`, its key and value, and `rb_right`.
pub data RbNode : Type 0 where
  leaf : RbNode
  node : Color → RbNode → Entry → RbNode → RbNode

-- What a node sees of its parent: whether it is `rb_left` or `rb_right` of it, and the rest of it.
pub data Parent : Type 0 where
  left_of : Color → Entry → RbNode → Parent
  right_of : Color → RbNode → Entry → Parent

pub record RbTree : Type 0 where
  pub root : RbNode
  pub size : ℕ
  pub key_cmp : Option (ℕ → ℕ → Ordering)

-- the parent with the node in it
abbrev pub join : RbNode → Parent → RbNode
join n (left_of c e r) = node c n e r
join n (right_of c l e) = node c l e n

-- the whole tree, from a node and its parent, grandparent and so on
pub whole : RbNode → List Parent → RbNode
whole n [] = n
whole n (p ∷ up) = whole (join n p) up

-- `rb_is_red`, of a node that is there
abbrev pub is_red : RbNode → Bool
is_red (node red l e r) = true
is_red n = false

abbrev pub color_of : Parent → Color
color_of (left_of c e r) = c
color_of (right_of c l e) = c

abbrev pub painted : Color → RbNode → RbNode
painted c leaf = leaf
painted c (node d l e r) = node c l e r

-- `_rb_rotate_left` and `_rb_rotate_right`, of a node with such a child
abbrev pub rotate_left : RbNode → RbNode
rotate_left (node c a x (node d b y r)) = node d (node c a x b) y r
rotate_left n = n

abbrev pub rotate_right : RbNode → RbNode
rotate_right (node c (node d l x b) y r) = node d l x (node c b y r)
rotate_right n = n

-- the red parent of the red node at work, turned if the node is on the inner side
abbrev pub turned_left : RbNode → Parent → RbNode
turned_left n (left_of c e r) = node c n e r
turned_left n (right_of c l e) = rotate_left (node c l e n)

abbrev pub turned_right : RbNode → Parent → RbNode
turned_right n (left_of c e r) = rotate_right (node c n e r)
turned_right n (right_of c l e) = node c l e n

-- `_rb_insert_balance` at a node with its parent and so on; `none` where the code would follow the
-- null pointer to a grandparent
pub insert_balance : RbNode → List Parent → Option RbNode
insert_balance n [] = some (painted black n)
insert_balance n (p ∷ []) = elim (color_of p) [
  | black ↦ some (painted black (join n p))
  | red ↦ none
]
insert_balance n (p ∷ left_of c e uncle ∷ up) =
    let rest = insert_balance (node red (painted black (join n p)) e (painted black uncle)) up in
    elim (color_of p) [
      | black ↦ some (painted black (whole (node c (join n p) e uncle) up))
      | red ↦
          if is_red uncle
          then rest
          else some (
              painted black
                (whole (rotate_right (node red (painted black (turned_left n p)) e uncle)) up))
    ]
insert_balance n (p ∷ right_of c uncle e ∷ up) =
    let rest = insert_balance (node red (painted black uncle) e (painted black (join n p))) up in
    elim (color_of p) [
      | black ↦ some (painted black (whole (node c uncle e (join n p)) up))
      | red ↦
          if is_red uncle
          then rest
          else some (
              painted black
                (whole (rotate_left (node red uncle e (painted black (turned_right n p)))) up))
    ]

-- Where the `while (*test)` of the insertions ends: at a null link_red, or at a node with the key.
pub data Descent : Type 0 where
  vacant : List Parent → Descent
  occupied : List Parent → Color → RbNode → Entry → RbNode → Descent

-- `_rb_link_node` of a new node, and `_rb_insert_balance` from there
pub link_red : List Parent → RbTree → Entry → Option RbTree
link_red up t x = elim (insert_balance (node red leaf x leaf) up) [
  | none ↦ none
  | some n ↦ some (record t { root = n; size = t.size + 1 })
]

module _ (cmp : ℕ → ℕ → Ordering) where
  pub descend : ℕ → RbNode → List Parent → Descent
  descend key leaf up = vacant up
  descend key (node c l e r) up = elim (cmp key e.key) [
    | Ordering.lt ↦ descend key l (left_of c e r ∷ up)
    | Ordering.gt ↦ descend key r (right_of c l e ∷ up)
    | Ordering.eq ↦ occupied up c l e r
  ]

  -- the `while (node)` of the searches
  pub find_node : ℕ → RbNode → Option Entry
  find_node key leaf = none
  find_node key (node c l e r) = elim (cmp key e.key) [
    | Ordering.lt ↦ find_node key l
    | Ordering.gt ↦ find_node key r
    | Ordering.eq ↦ some e
  ]

  -- The insertions take the address `fresh` of a node from the allocator, which they use only if they
  -- link a node. An existing node is changed by `f`.
  pub insert_or_change : (ℕ → ℕ → Entry → Entry) → RbTree → ℕ → ℕ → ℕ → Option (RbTree × ℕ)
  insert_or_change f t fresh key value = elim (descend key t.root []) [
    | occupied up c l e r ↦ some (record t { root = whole (node c l (f key value e) r) up }, e.addr)
    | vacant up ↦ elim (link_red up t (record { addr = fresh; key = key; value = value })) [
      | none ↦ none
      | some t' ↦ some (t', fresh)
    ]
  ]

  -- the result, and `*insert_or_exist_node`
  pub try_insert : RbTree → ℕ → ℕ → ℕ → Option (Bool × RbTree × ℕ)
  try_insert t fresh key value = elim (descend key t.root []) [
    | occupied up c l e r ↦ some (false, t, e.addr)
    | vacant up ↦ elim (link_red up t (record { addr = fresh; key = key; value = value })) [
      | none ↦ none
      | some t' ↦ some (true, t', fresh)
    ]
  ]

-- the order of the keys: `key_cmp`, or that of the pointers where it is null
abbrev pub key_order : RbTree → ℕ → ℕ → Ordering
key_order t = elim t.key_cmp [ none ↦ compare | some cmp ↦ cmp ]

pub rb_tree_insert_integer : RbTree → ℕ → ℕ → ℕ → Option (RbTree × ℕ)
rb_tree_insert_integer t fresh key user_data =
    insert_or_change compare (λ k v e. record e { value = v }) t fresh key user_data

pub rb_tree_insert_user : RbTree → ℕ → ℕ → ℕ → Option (RbTree × ℕ)
rb_tree_insert_user t fresh key user_data =
    insert_or_change (key_order t) (λ k v e. record e { key = k; value = v }) t fresh key user_data

pub rb_tree_try_insert_integer : RbTree → ℕ → ℕ → ℕ → Option (Bool × RbTree × ℕ)
rb_tree_try_insert_integer t fresh key user_data = try_insert compare t fresh key user_data

pub rb_tree_try_insert_user : RbTree → ℕ → ℕ → ℕ → Option (Bool × RbTree × ℕ)
rb_tree_try_insert_user t fresh key user_data = try_insert (key_order t) t fresh key user_data

pub rb_tree_find_integer : RbTree → ℕ → Option Entry
rb_tree_find_integer t key = find_node compare key t.root

pub rb_tree_find_user : RbTree → ℕ → Option Entry
rb_tree_find_user t key = find_node (key_order t) key t.root

pub create_rb_tree : Option (ℕ → ℕ → Ordering) → RbTree
create_rb_tree cmp = record { root = leaf; size = 0; key_cmp = cmp }

pub rb_tree_clear : RbTree → RbTree
rb_tree_clear t = record t { root = leaf; size = 0 }

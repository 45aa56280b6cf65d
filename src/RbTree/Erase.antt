-- ===== src/RbTree/Erase.antt =====
-- `rb_tree_erase` of src/rb_tree.c, on the tree.
pub mod Settle
pub mod Short
pub mod Left
pub mod Right
pub mod Balance
pub mod Unlink
pub mod Inv
use Prim.Native.Nat.{Ordering}
use libsvr.Common.{
  ℕ, ◌-◌, Bool, true, false, not, ◌&&◌, Option, none, some, List, [], ◌∷◌, if◌then◌else◌,
}
use libsvr.AvlTree.{Entry}
use libsvr.RbTree.{
  Color, red, black, RbNode, leaf, node, Parent, left_of, right_of, whole, is_red, painted, RbTree,
  Descent, vacant, occupied, descend,
}

-- no child of the sibling is red
abbrev pub both_black : RbNode → RbNode → Bool
both_black l r = not (is_red l) && not (is_red r)

-- The `else` of `_rb_erase_balance`, for a left (right) node `n` of a parent of color `c`: the subtree
-- after one or two rotations. A red far child of the sibling needs one, and else the near child is
-- turned up.
pub settle_left : Color → RbNode → Entry → RbNode → Option RbNode
settle_left c n e leaf = none
settle_left c n e (node d leaf f r) =
    if is_red r then some (node c (node black n e leaf) f (painted black r)) else none
settle_left c n e (node d (node g a x b) f r) =
    if is_red r
    then some (node c (node black n e (node g a x b)) f (painted black r))
    else some (node c (node black n e a) x (node black b f r))

pub settle_right : Color → RbNode → Entry → RbNode → Option RbNode
settle_right c n e leaf = none
settle_right c n e (node d l f leaf) =
    if is_red l then some (node c (painted black l) f (node black leaf e n)) else none
settle_right c n e (node d l f (node g a x b)) =
    if is_red l
    then some (node c (painted black l) f (node black (node g a x b) e n))
    else some (node c (node black l f a) x (node black b e n))

-- the loop ends with `node = root->root`, which is painted black
abbrev pub top : List Parent → Option RbNode → Option RbNode
top up none = none
top up (some m) = some (painted black (whole m up))

-- `_rb_erase_balance` at a node that is one black node short, with its parent and so on. After a red
-- sibling was turned up the parent is red, so that the loop ends in the next round. `none` stands for
-- a null pointer that the code would follow.
pub erase_balance : RbNode → List Parent → Option RbNode
erase_balance n [] = some (painted black n)
erase_balance n (left_of c e leaf ∷ up) =
    if is_red n then some (whole (painted black n) (left_of c e leaf ∷ up)) else none
erase_balance n (left_of c e (node black l f r) ∷ up) =
    let above = erase_balance (node c n e (node red l f r)) up in
    if is_red n
    then some (whole (painted black n) (left_of c e (node black l f r) ∷ up))
    else if both_black l r
    then above
    else top up (settle_left c n e (node black l f r))
erase_balance n (left_of c e (node red leaf f r) ∷ up) =
    if is_red n then some (whole (painted black n) (left_of c e (node red leaf f r) ∷ up)) else none
erase_balance n (left_of c e (node red (node d a x b) f r) ∷ up) =
    if is_red n
    then some (whole (painted black n) (left_of c e (node red (node d a x b) f r) ∷ up))
    else if both_black a b
    then some (whole (node black n e (node red a x b)) (left_of black f r ∷ up))
    else top (left_of black f r ∷ up) (settle_left red n e (node d a x b))
erase_balance n (right_of c leaf e ∷ up) =
    if is_red n then some (whole (painted black n) (right_of c leaf e ∷ up)) else none
erase_balance n (right_of c (node black l f r) e ∷ up) =
    let above = erase_balance (node c (node red l f r) e n) up in
    if is_red n
    then some (whole (painted black n) (right_of c (node black l f r) e ∷ up))
    else if both_black l r
    then above
    else top up (settle_right c n e (node black l f r))
erase_balance n (right_of c (node red l f leaf) e ∷ up) =
    if is_red n
    then some (whole (painted black n) (right_of c (node red l f leaf) e ∷ up))
    else none
erase_balance n (right_of c (node red l f (node d a x b)) e ∷ up) =
    if is_red n
    then some (whole (painted black n) (right_of c (node red l f (node d a x b)) e ∷ up))
    else if both_black a b
    then some (whole (node black (node red a x b) e n) (right_of black l f ∷ up))
    else top (right_of black l f ∷ up) (settle_right red n e (node d a x b))

-- the subtree `n` in the place of a node of color `c` that was taken out
pub unlinked : Color → RbNode → List Parent → Option RbNode
unlinked black n up = erase_balance n up
unlinked red n up = some (whole n up)

-- the first entry of a tree, or `e` if it has none
abbrev pub first : Entry → RbNode → Entry
first e leaf = e
first e (node c l f r) = first f l

-- The first node of a subtree is taken out: it has no `rb_left`.
pub unlink_first : RbNode → List Parent → Option RbNode
unlink_first leaf up = none
unlink_first (node c leaf e r) up = unlinked c r up
unlink_first (node c (node d a x b) e r) up = unlink_first (node d a x b) (left_of c e r ∷ up)

-- the node with these children is erased: one with two children by the next node, in its place
pub erase_at : List Parent → Color → RbNode → Entry → RbNode → Option RbNode
erase_at up c leaf e r = unlinked c r up
erase_at up c (node d a x b) e leaf = unlinked c (node d a x b) up
erase_at up c (node d a x b) e (node g l f r) =
    unlink_first (node g l f r) (right_of c (node d a x b) (first e (node g l f r)) ∷ up)

-- The node is that of the entry `x`, to which its key leads. `none` stands for a null pointer that the
-- code would follow.
pub rb_tree_erase : (ℕ → ℕ → Ordering) → RbTree → Entry → Option RbTree
rb_tree_erase cmp t x = elim (descend cmp x.key t.root []) [
  | vacant up ↦ none
  | occupied up c l e r ↦ elim (erase_at up c l e r) [
    | none ↦ none
    | some n ↦ some (record t { root = n; size = t.size - 1 })
  ]
]

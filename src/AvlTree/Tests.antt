-- ===== src/AvlTree/Tests.antt =====
-- Trees of integers at concrete inputs.
use Prim.Native.Nat.{compare, Ordering}
use libsvr.Common.{ℕ, some, ◌≡◌, refl, arith, true, none, [], ◌∷◌}
use libsvr.AvlTree.{
  Entry, Node, leaf, node, AvlTree, create_avl_tree, avl_tree_try_insert_integer,
  avl_tree_insert_integer, avl_tree_insert_user, avl_tree_find_user, insert_by, balance, link_node,
  link, link_behind, rotate_twice_left, rotate_right_child, rotate_left_child, try_insert_by, find,
  spot, link_chain, height_over,
}
use libsvr.AvlTree.Shape.{inorder}
use libsvr.AvlTree.Balance.{IsAvl}
use libsvr.AvlTree.Orders.{integers, Sorted}
use libsvr.AvlTree.Chain.{addrs, Distinct}
use libsvr.AvlTree.Inv.{IsWhole, Answers, try_insert_by_lem}
use libsvr.AvlTree.Overwrite.{Overwrites}
use libsvr.AvlTree.Erase.{avl_tree_erase, erase_node, erase_here, take_first, splice_out, unlink}
use libsvr.AvlTree.Erase.Inv.{avl_tree_erase_lem}
use libsvr.AvlTree.Operations.{
  Step, created, stepped, inserted, tried, avl_tree_insert_user_lem, Built-IsWhole,
}

abbrev at_100 : Entry
at_100 = record { addr = 100; key = 5; value = 50 }

abbrev at_200 : Entry
at_200 = record { addr = 200; key = 3; value = 30 }

abbrev at_300 : Entry
at_300 = record { addr = 300; key = 4; value = 40 }

-- the keys 5 and 3, before 4 comes between them
abbrev two_nodes : Node
two_nodes = node (node leaf leaf 1 at_200) leaf 2 at_100

abbrev two_keys : AvlTree
two_keys = record { root = two_nodes; size = 2; chain = 200 ∷ 100 ∷ []; key_cmp = none }

two_nodes-IsAvl : IsAvl two_nodes
unfolding height_over
two_nodes-IsAvl = ((tt, tt, refl, omega arith, omega arith), tt, refl, omega arith, omega arith)

two_nodes-Sorted : Sorted compare (inorder two_nodes)
unfolding inorder
two_nodes-Sorted = ((refl, tt), (tt, tt))

two_keys-IsWhole : IsWhole compare two_keys
unfolding inorder
two_keys-IsWhole = record {
  avl = two_nodes-IsAvl;
  sorted = two_nodes-Sorted;
  apart = ((omega arith, tt), (tt, tt));
  links = refl;
  sized = refl;
}

-- The double rotation brings 4 to the root.
try_insert_run : avl_tree_try_insert_integer two_keys 300 4 40 ≡ (
  true,
  record {
    root = node (node leaf leaf 1 at_200) (node leaf leaf 1 at_100) 2 at_300;
    size = 3;
    chain = 200 ∷ 300 ∷ 100 ∷ [];
    key_cmp = none;
  },
  300,
)
unfolding avl_tree_try_insert_integer link link_node balance spot link_chain link_behind
    rotate_twice_left rotate_right_child rotate_left_child height_over
try_insert_run = refl

try_insert_by_lem_example :
    IsWhole compare (try_insert_by compare two_keys 300 4 40).1
    × Answers compare two_keys at_300
        (find compare 4 two_nodes)
        (try_insert_by compare two_keys 300 4 40)
unfolding inorder
try_insert_by_lem_example =
    try_insert_by_lem integers two_keys 300 4 40 two_keys-IsWhole (omega arith, (omega arith, tt))

two_nodes-Distinct : Distinct (addrs two_nodes)
unfolding inorder
two_nodes-Distinct = ((omega arith, tt), (tt, tt))

avl_tree_insert_user_lem_example :
    IsWhole compare (avl_tree_insert_user two_keys 300 3 31).0
    × Overwrites compare two_nodes
        (λ e. record e { key = 3; value = 31 })
        (record { addr = 300; key = 3; value = 31 })
        (avl_tree_find_user two_keys 3)
        (avl_tree_insert_user two_keys 300 3 31)
unfolding inorder
avl_tree_insert_user_lem_example =
    avl_tree_insert_user_lem two_keys 300 3 31 integers two_keys-IsWhole
      (omega arith, (omega arith, tt))

abbrev one_key : AvlTree
one_key = (avl_tree_insert_integer (create_avl_tree none) 100 5 50).0

first-Step : Step (create_avl_tree none) one_key
unfolding create_avl_tree inorder
first-Step = inserted (create_avl_tree none) 100 5 50 tt

second-Step : Step one_key (avl_tree_try_insert_integer one_key 200 3 30).1
unfolding create_avl_tree inorder avl_tree_insert_integer insert_by link link_node spot
second-Step = tried one_key 200 3 30 (omega arith, tt)

Built-IsWhole_example : IsWhole compare (avl_tree_try_insert_integer one_key 200 3 30).1
Built-IsWhole_example = Built-IsWhole (stepped (stepped created first-Step) second-Step)

found_5 : find compare 5 two_nodes ≡ some at_100
unfolding find
found_5 = refl

erase_run :
    avl_tree_erase compare two_keys (some at_100)
    ≡ record { root = node leaf leaf 1 at_200; size = 1; chain = 200 ∷ []; key_cmp = none }
unfolding avl_tree_erase erase_node erase_here take_first splice_out unlink
erase_run = refl

avl_tree_erase_lem_example :
    IsWhole compare (avl_tree_erase compare two_keys (some at_100))
    × ((k : ℕ)
        → find compare k (avl_tree_erase compare two_keys (some at_100)).root
          ≡ elim (compare k 5) [ Ordering.eq ↦ none | _ ↦ find compare k two_nodes ])
avl_tree_erase_lem_example = avl_tree_erase_lem integers two_keys at_100 two_keys-IsWhole found_5

in_order : addrs two_nodes ≡ 200 ∷ 100 ∷ []
unfolding inorder
in_order = refl

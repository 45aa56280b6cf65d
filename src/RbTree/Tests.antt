-- ===== src/RbTree/Tests.antt =====
-- A red-black tree of the keys 5, 3, 4 and 9.
use Prim.Native.Nat.{compare}
use libsvr.Common.{ℕ, ◌+◌, ◌*◌, ◌≡◌, refl, arith, none, some, [], ◌∷◌}
use libsvr.AvlTree.{Entry}
use libsvr.AvlTree.Orders.{integers}
use libsvr.RbTree.{
  find_node, red, black, leaf, node, RbTree, try_insert, insert_balance, left_of, right_of, whole,
}
use libsvr.RbTree.Level.{inorder, black_height}
use libsvr.RbTree.Inv.{IsWhole, Inserted, try_insert_safe}
use libsvr.RbTree.Erase.{rb_tree_erase}
use libsvr.RbTree.Erase.Inv.{Erased, rb_tree_erase_safe}

abbrev entry : ℕ → Entry
entry k = record { addr = 100 + k; key = k; value = k * k }

-- 3 and 5 under 4
abbrev three : RbTree
three = record {
  root = node black (node red leaf (entry 3) leaf) (entry 4) (node red leaf (entry 5) leaf);
  size = 3;
  key_cmp = none;
}

three-IsWhole : IsWhole compare three
unfolding black_height inorder
three-IsWhole = record {
  rb = (
    ((tt, tt, refl, λ q. (refl, refl)), (tt, tt, refl, λ q. (refl, refl)), refl, λ q. ground arith),
    refl,
  );
  sorted = ((refl, (refl, tt)), ((refl, tt), (tt, tt)));
  sized = refl;
}

-- the uncle of 9 is red, and both it and the parent are painted black
try_insert_safe_example :
    Inserted compare three
      (record { addr = 7; key = 9; value = 1 })
      (try_insert compare three 7 9 1)
try_insert_safe_example = try_insert_safe integers three 7 9 1 three-IsWhole

-- 5, 3 and 4 make the tree with two rotations.
inner_rotations :
    insert_balance
      (node red leaf (entry 4) leaf)
      (right_of red leaf (entry 3) ∷ left_of black (entry 5) leaf ∷ [])
    ≡ some three.root
unfolding insert_balance whole
inner_rotations = refl

-- 4 has two children, and 5 takes its place.
rb_tree_erase_safe_example : Erased compare three (entry 4) (rb_tree_erase compare three (entry 4))
unfolding find_node
rb_tree_erase_safe_example = rb_tree_erase_safe integers three (entry 4) three-IsWhole refl

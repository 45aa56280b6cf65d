-- ===== src/AvlTree/Operations.antt =====
-- The operations of the AVL tree, by integer and by user key, and the trees that they build.
use Prim.Native.Nat.{compare, Ordering}
use libsvr.Common.{ℕ, ◌≡◌, some, refl, none}
use libsvr.AvlTree.{
  Entry, AvlTree, user_order, create_avl_tree, avl_tree_clear, avl_tree_insert_integer,
  avl_tree_insert_user, avl_tree_try_insert_integer, avl_tree_find_user, avl_tree_find_integer,
}
use libsvr.AvlTree.Shape.{inorder}
use libsvr.AvlTree.Orders.{IsOrder, integers}
use libsvr.AvlTree.Chain.{addrs, NotIn}
use libsvr.AvlTree.Inv.{IsWhole, try_insert_by_lem}
use libsvr.AvlTree.Erase.{avl_tree_erase}
use libsvr.AvlTree.Erase.Inv.{avl_tree_erase_lem}
use libsvr.AvlTree.Overwrite.{Keeps, Overwrites, insert_by_lem}

Keeps-value : (key value : ℕ) → Keeps compare key (λ e. record e { value = value })
Keeps-value key value = record {
  address = λ e. refl;
  from_left = λ e c h. refl;
  from_right = λ e c h. refl;
}

Keeps-key :
    {cmp : ℕ → ℕ → Ordering}
    → IsOrder cmp
    → (key value : ℕ) → Keeps cmp key (λ e. record e { key = key; value = value })
Keeps-key o key value = record {
  address = λ e. refl;
  from_left = λ e c h. o.alike key e.key c h;
  from_right = λ e c h. o.alike_right key e.key c h;
}

-- Inserting by integer key, with the address `fresh` of no node, keeps the invariant. The result is
-- the address of the node at the key, the one that was there, now with the new value, or a new one
-- at `fresh`; a search by that key finds this node, and by any other key what it found before.
pub avl_tree_insert_integer_lem :
    (t : AvlTree) (fresh key value : ℕ)
    → IsWhole compare t
    → NotIn fresh (addrs t.root)
    → let new : Entry = record { addr = fresh; key = key; value = value } in
      let result = avl_tree_insert_integer t fresh key value in
      IsWhole compare result.0
      × Overwrites compare t.root
          (λ e. record e { value = value })
          new
          (avl_tree_find_integer t key)
          result
unfolding avl_tree_insert_integer avl_tree_find_integer
avl_tree_insert_integer_lem t fresh key value w n =
    insert_by_lem integers t fresh key value (λ k v e. record e { value = v })
      (Keeps-value key value) w n

-- Inserting by user key, where the order of the tree (its comparison, or that of the pointers if it
-- has none) is total and `fresh` is the address of no node, keeps the invariant. The result is the
-- address of the node at the key, the one that was there, now with the new key and value, or a new
-- one at `fresh`; a search by a key that compares as equal finds this node, and by any other what
-- it found before.
pub avl_tree_insert_user_lem :
    (t : AvlTree) (fresh key value : ℕ)
    → IsOrder (user_order t)
    → IsWhole (user_order t) t
    → NotIn fresh (addrs t.root)
    → let new : Entry = record { addr = fresh; key = key; value = value } in
      let result = avl_tree_insert_user t fresh key value in
      IsWhole (user_order t) result.0
      × Overwrites
          (user_order t)
          t.root
          (λ e. record e { key = key; value = value })
          new
          (avl_tree_find_user t key)
          result
unfolding avl_tree_insert_user avl_tree_find_user
avl_tree_insert_user_lem t fresh key value o w n =
    insert_by_lem o t fresh key value (λ k v e. record e { key = k; value = v })
      (Keeps-key o key value) w n

-- one call on a tree with integer keys; an insertion takes a node whose address is not in use
pub data Step : AvlTree → AvlTree → Type 0 where
  inserted :
      (t : AvlTree) (fresh key value : ℕ)
      → NotIn fresh (addrs t.root)
      → Step t (avl_tree_insert_integer t fresh key value).0
  tried :
      (t : AvlTree) (fresh key value : ℕ)
      → NotIn fresh (addrs t.root)
      → Step t (avl_tree_try_insert_integer t fresh key value).1
  erased :
      (t : AvlTree) (e : Entry)
      → avl_tree_find_integer t e.key ≡ some e
      → Step t (avl_tree_erase compare t (some e))
  cleared : (t : AvlTree) → Step t (avl_tree_clear t)

-- the trees that calls build from a new one
pub data Built : AvlTree → Type 0 where
  created : Built (create_avl_tree none)
  stepped : {t t' : AvlTree} → Built t → Step t t' → Built t'

Step-IsWhole : {t t' : AvlTree} → Step t t' → IsWhole compare t → IsWhole compare t'
unfolding avl_tree_clear avl_tree_try_insert_integer avl_tree_find_integer inorder
Step-IsWhole (inserted t fresh key value n) w =
    (avl_tree_insert_integer_lem t fresh key value w n).0
Step-IsWhole (tried t fresh key value n) w = (try_insert_by_lem integers t fresh key value w n).0
Step-IsWhole (erased t e found) w = (avl_tree_erase_lem integers t e w found).0
Step-IsWhole (cleared t) w = record {
  avl = tt;
  sorted = tt;
  apart = tt;
  links = refl;
  sized = refl;
}

-- Every tree that is built from a new one by insertions of integer keys, overwriting or not,
-- by clearing satisfies the invariant.
pub Built-IsWhole : {t : AvlTree} → Built t → IsWhole compare t
unfolding create_avl_tree inorder
Built-IsWhole created = record { avl = tt; sorted = tt; apart = tt; links = refl; sized = refl }
Built-IsWhole (stepped b s) = Step-IsWhole s (Built-IsWhole b)

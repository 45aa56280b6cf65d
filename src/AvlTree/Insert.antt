-- ===== src/AvlTree/Insert.antt =====
-- Linking a node keeps the AVL condition.
use Prim.Native.Nat.{Ordering}
use libsvr.Common.{ℕ, ◌+◌, ◌≤◌, ◌≡◌, refl, arith, inl, inr, dec_lt}
use libsvr.AvlTree.{
  Entry, Node, leaf, node, node_height, height_over, balance, link_node, change_node,
}
use libsvr.AvlTree.Orders.{Ordering-cases}
use libsvr.AvlTree.Balance.{IsAvl, balance-Balanced, heights}

-- a tree that has grown by at most one level
record Grown (t t' : Node) : Type 0 where
  avl : IsAvl t'
  least : node_height t ≤ node_height t'
  most : node_height t' ≤ node_height t + 1

module _ (l l' r : Node) (h : ℕ) (e : Entry) where
  Grown-left : IsAvl (node l r h e) → Grown l l' → Grown (node l r h e) (balance l' r e)
  Grown-left (ul, ur, eq, p, q) g =
      let b = balance-Balanced l' r e g.avl ur (omega arith) (omega arith) in
      elim (dec_lt (node_height r + 1) (node_height l')) [
        | yes tall ↦ record { avl = b.avl; least = omega heights; most = omega heights }
        | no flat ↦
            let same = b.even (omega arith) (omega arith) in
            record { avl = b.avl; least = omega heights; most = omega heights }
      ]

  Grown-right : IsAvl (node r l h e) → Grown l l' → Grown (node r l h e) (balance r l' e)
  Grown-right (ur, ul, eq, p, q) g =
      let b = balance-Balanced r l' e ur g.avl (omega arith) (omega arith) in
      elim (dec_lt (node_height r + 1) (node_height l')) [
        | yes tall ↦ record { avl = b.avl; least = omega heights; most = omega heights }
        | no flat ↦
            let same = b.even (omega arith) (omega arith) in
            record { avl = b.avl; least = omega heights; most = omega heights }
      ]

module _ (cmp : ℕ → ℕ → Ordering) where
  link_node-Grown : (x : Entry) (t : Node) → IsAvl t → Grown t (link_node cmp x t)
  unfolding link_node
  link_node-Grown x leaf u = record {
    avl = (tt, tt, unfold height_over in refl, omega arith, omega arith);
    least = omega arith;
    most = omega arith;
  }
  link_node-Grown x (node l r h e) u = elim (Ordering-cases (cmp x.key e.key)) [
    | inl below ↦
        rw (below, link_node) (Grown-left l (link_node cmp x l) r h e u (link_node-Grown x l u.0))
    | inr (inl same) ↦
        rw (same, link_node) (record { avl = u; least = omega arith; most = omega arith })
    | inr (inr above) ↦
        rw (above, link_node) (Grown-right r (link_node cmp x r) l h e u (link_node-Grown x r u.1))
  ]

  -- Linking a node and balancing up from it keeps an AVL tree, which grows by at most one level.
  pub link_node-IsAvl :
      (x : Entry) (t : Node)
      → IsAvl t
      → IsAvl (link_node cmp x t)
        × (node_height t ≤ node_height (link_node cmp x t))
        × (node_height (link_node cmp x t) ≤ node_height t + 1)
  link_node-IsAvl x t u = let g = link_node-Grown x t u in (g.avl, g.least, g.most)

  change_node-height :
      (key : ℕ) (f : Entry → Entry) (t : Node)
      → node_height (change_node cmp key f t) ≡ node_height t
  unfolding change_node
  change_node-height key f leaf = refl
  change_node-height key f (node l r h e) = ground arith

  -- A change of an entry in place keeps an AVL tree.
  pub change_node-IsAvl :
      (key : ℕ) (f : Entry → Entry) (t : Node) → IsAvl t → IsAvl (change_node cmp key f t)
  unfolding change_node height_over
  change_node-IsAvl key f leaf u = u
  change_node-IsAvl key f (node l r h e) (ul, ur, eq, p, q) =
      elim (Ordering-cases (cmp key e.key)) [
        | inl below ↦
            rw (below, change_node)
              (rw (change_node-height key f l) (change_node-IsAvl key f l ul, ur, eq, p, q))
        | inr (inl same) ↦ rw (same, change_node) (ul, ur, eq, p, q)
        | inr (inr above) ↦
            rw (above, change_node)
              (rw (change_node-height key f r) (ul, change_node-IsAvl key f r ur, eq, p, q))
      ]

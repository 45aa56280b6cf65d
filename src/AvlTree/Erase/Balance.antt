-- ===== src/AvlTree/Erase/Balance.antt =====
-- Erasing a node keeps the AVL condition.
use Prim.Native.Nat.{Ordering}
use libsvr.Common.{ℕ, ◌+◌, ◌≤◌, ◌≡◌, refl, sym, subst, arith, inl, inr, dec_lt, Option, none, some}
use libsvr.AvlTree.{Entry, Node, leaf, node, node_height, balance}
use libsvr.AvlTree.Erase.{splice_out, take_first, erase_here, erase_node}
use libsvr.AvlTree.Orders.{Ordering-cases}
use libsvr.AvlTree.Balance.{IsAvl, balance-Balanced, heights}

-- a tree that has shrunk by at most one level
record Shrunk (t t' : Node) : Type 0 where
  avl : IsAvl t'
  most : node_height t' ≤ node_height t
  least : node_height t ≤ node_height t' + 1

-- new children under the same node, of which one has shrunk
module _ (l r l' r' : Node) (h : ℕ) (e e' : Entry) where
  Shrunk-balance :
      IsAvl (node l r h e)
      → IsAvl l'
      → IsAvl r'
      → node_height l' ≤ node_height l
      → node_height l ≤ node_height l' + 1
      → node_height r' ≤ node_height r
      → node_height r ≤ node_height r' + 1
      → node_height l + node_height r ≤ node_height l' + node_height r' + 1
      → Shrunk (node l r h e) (balance l' r' e')
  Shrunk-balance (ul, ur, eq, p, q) u v a b c d one =
      let s = balance-Balanced l' r' e' u v (omega arith) (omega arith) in
      elim (dec_lt (node_height r' + 1) (node_height l')) [
        | yes tall ↦ record { avl = s.avl; most = omega heights; least = omega heights }
        | no flat ↦ elim (dec_lt (node_height l' + 1) (node_height r')) [
          | yes tall ↦ record { avl = s.avl; most = omega heights; least = omega heights }
          | no even ↦
              let same = s.even (omega arith) (omega arith) in
              record { avl = s.avl; most = omega heights; least = omega heights }
        ]
      ]

Shrunk-left :
    (l l' r : Node) (h : ℕ) (e : Entry)
    → IsAvl (node l r h e)
    → Shrunk l l'
    → Shrunk (node l r h e) (balance l' r e)
Shrunk-left l l' r h e u s =
    Shrunk-balance l r l' r h e e u s.avl u.1 s.most s.least (omega arith) (omega arith)
      (omega arith)

Shrunk-right :
    (l r r' : Node) (h : ℕ) (e e' : Entry)
    → IsAvl (node l r h e)
    → Shrunk r r'
    → Shrunk (node l r h e) (balance l r' e')
Shrunk-right l r r' h e e' u s =
    Shrunk-balance l r l r' h e e' u u.0 s.avl (omega arith) (omega arith) s.most s.least
      (omega arith)

Shrunk-no_left :
    (r : Node) (h : ℕ) (e : Entry)
    → IsAvl (node leaf r h e)
    → Shrunk (node leaf r h e) (splice_out leaf r)
unfolding splice_out
Shrunk-no_left leaf h e (ul, ur, eq, p, q) = record {
  avl = tt;
  most = omega heights;
  least = omega heights;
}
Shrunk-no_left (node a b k x) h e (ul, ur, eq, p, q) = record {
  avl = ur;
  most = omega heights;
  least = omega heights;
}

-- what `take_first` leaves behind
Remains : Node → Option (Entry × Node) → Type 0
Remains t none = t ≡ leaf
Remains t (some taken) = Shrunk t taken.1

take_first-Remains : (t : Node) → IsAvl t → Remains t (take_first t)
unfolding take_first Remains
take_first-Remains leaf u = refl
take_first-Remains (node l r h e) u = from (take_first l) (take_first-Remains l u.0)
  where
    from :
        (o : Option (Entry × Node))
        → Remains l o
        → Remains (node l r h e) (elim o as (λ o. Option (Entry × Node)) [
          | none ↦ some (e, splice_out leaf r)
          | some taken ↦ some (taken.0, balance taken.1 r e)
        ])
    from none s =
        subst (λ l. Shrunk (node l r h e) (splice_out leaf r)) (sym s)
          (Shrunk-no_left r h e (subst (λ l. IsAvl (node l r h e)) s u))
    from (some taken) s = Shrunk-left l taken.1 r h e u s

erase_here-Shrunk :
    (l r : Node) (h : ℕ) (e : Entry) → IsAvl (node l r h e) → Shrunk (node l r h e) (erase_here l r)
unfolding erase_here splice_out Remains
erase_here-Shrunk leaf r h e u = Shrunk-no_left r h e u
erase_here-Shrunk (node a b k x) r h e u = from (take_first r) (take_first-Remains r u.1)
  where
    from :
        (o : Option (Entry × Node))
        → Remains r o
        → Shrunk (node (node a b k x) r h e) (elim o as (λ o. Node) [
          | none ↦ splice_out (node a b k x) r
          | some taken ↦ balance (node a b k x) taken.1 taken.0
        ])
    from none s =
        subst (λ r. Shrunk (node (node a b k x) r h e) (splice_out (node a b k x) r)) (sym s)
          (let (ul, ur, eq, p, q) = subst (λ r. IsAvl (node (node a b k x) r h e)) s u in
            record { avl = ul; most = omega heights; least = omega heights })
    from (some taken) s = Shrunk-right (node a b k x) r taken.1 h e taken.0 u s

module _ (cmp : ℕ → ℕ → Ordering) (key : ℕ) where
  erase_node-Shrunk : (t : Node) → IsAvl t → Shrunk t (erase_node cmp key t)
  unfolding erase_node
  erase_node-Shrunk leaf u = record { avl = u; most = omega arith; least = omega arith }
  erase_node-Shrunk (node l r h e) u = elim (Ordering-cases (cmp key e.key)) [
    | inl below ↦
        rw (below, erase_node)
          (Shrunk-left l (erase_node cmp key l) r h e u (erase_node-Shrunk l u.0))
    | inr (inl same) ↦ rw (same, erase_node) (erase_here-Shrunk l r h e u)
    | inr (inr above) ↦
        rw (above, erase_node)
          (Shrunk-right l r (erase_node cmp key r) h e e u (erase_node-Shrunk r u.1))
  ]

  -- Erasing the node at a key, if there is one, and balancing up from it keeps an AVL tree, which
  -- shrinks by at most one level.
  pub erase_node-IsAvl :
      (t : Node)
      → IsAvl t
      → IsAvl (erase_node cmp key t)
        × (node_height (erase_node cmp key t) ≤ node_height t)
        × (node_height t ≤ node_height (erase_node cmp key t) + 1)
  erase_node-IsAvl t u = let s = erase_node-Shrunk t u in (s.avl, s.most, s.least)

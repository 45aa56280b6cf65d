-- ===== src/AvlTree/Balance.antt =====
-- `balance` restores the AVL condition where the heights of the children differ by at most two.
use libsvr.Common.{
  ℕ, ◌+◌, ◌≤◌, ◌<◌, ◌≡◌, refl, sym, ap, ◌∙◌, arith, ltb, leb, ◌==◌, if◌then◌else◌, Bool, true,
  false, dec_lt, ℕ_discrete, le→leb, lt→leb, eq→==, ne→==,
}
use Prim.Native.Nat.{max}
use libsvr.AvlTree.{
  Entry, Node, leaf, node, node_height, height_over, linked, rotate_left_child, rotate_right_child,
  rotate_twice_left, rotate_twice_right, leans_left, leans_right, balance,
}

-- At every node the stored height is right and those of the children differ by at most one.
abbrev pub IsAvl : Node → Type 0
IsAvl leaf = Unit
IsAvl (node l r h e) =
    IsAvl l
    × IsAvl r
    × (h ≡ height_over l r)
    × (node_height l ≤ node_height r + 1)
    × (node_height r ≤ node_height l + 1)

-- What `balance` makes of two children: an AVL tree whose height is that of a node over them, or
-- one less if a rotation was needed.
pub record Balanced (l r t : Node) : Type 0 where
  pub avl : IsAvl t
  pub most : node_height t ≤ height_over l r
  pub least : height_over l r ≤ node_height t + 1
  pub even :
      node_height l ≤ node_height r + 1
      → node_height r ≤ node_height l + 1
      → node_height t ≡ height_over l r

pub height_over-max : (l r : Node) → height_over l r ≡ 1 + max (node_height l) (node_height r)
unfolding height_over
height_over-max l r = ground arith

pub ruleset heights = (arith, height_over-max)

module _ (l r : Node) (e : Entry) where
  linked-Balanced :
      IsAvl l
      → IsAvl r
      → node_height l ≤ node_height r + 1
      → node_height r ≤ node_height l + 1
      → Balanced l r (linked l r e)
  linked-Balanced u v p q = record {
    avl = (u, v, refl, p, q);
    most = omega arith;
    least = omega arith;
    even = λ p q. refl;
  }

module _ (a b r : Node) (k : ℕ) (x e : Entry) where
  single_left :
      IsAvl (node a b k x)
      → IsAvl r
      → k ≡ node_height r + 2
      → node_height b ≤ node_height a
      → Balanced (node a b k x) r (linked a (linked b r e) x)
  single_left (ua, ub, eq, p, q) v h lean = record {
    avl = (ua, (ub, v, refl, omega heights, omega heights), refl, omega heights, omega heights);
    most = omega heights;
    least = omega heights;
    even = λ p q. absurd (omega heights);
  }

  single_right :
      IsAvl r
      → IsAvl (node a b k x)
      → k ≡ node_height r + 2
      → node_height a ≤ node_height b
      → Balanced r (node a b k x) (linked (linked r a e) b x)
  single_right v (ua, ub, eq, p, q) h lean = record {
    avl = ((v, ua, refl, omega heights, omega heights), ub, refl, omega heights, omega heights);
    most = omega heights;
    least = omega heights;
    even = λ p q. absurd (omega heights);
  }

module _ (a c d r : Node) (k m : ℕ) (x y e : Entry) where
  double_left :
      IsAvl (node a (node c d m y) k x)
      → IsAvl r
      → k ≡ node_height r + 2
      → node_height a < m
      → Balanced (node a (node c d m y) k x) r (linked (linked a c x) (linked d r e) y)
  double_left (ua, (uc, ud, eq', p', q'), eq, p, q) v h lean = record {
    avl = (
      (ua, uc, refl, omega heights, omega heights),
      (ud, v, refl, omega heights, omega heights),
      refl,
      omega heights,
      omega heights,
    );
    most = omega heights;
    least = omega heights;
    even = λ p q. absurd (omega heights);
  }

  double_right :
      IsAvl r
      → IsAvl (node (node c d m y) a k x)
      → k ≡ node_height r + 2
      → node_height a < m
      → Balanced r (node (node c d m y) a k x) (linked (linked r c e) (linked d a x) y)
  double_right v ((uc, ud, eq', p', q'), ua, eq, p, q) h lean = record {
    avl = (
      (v, uc, refl, omega heights, omega heights),
      (ud, ua, refl, omega heights, omega heights),
      refl,
      omega heights,
      omega heights,
    );
    most = omega heights;
    least = omega heights;
    even = λ p q. absurd (omega heights);
  }

tall_left :
    (l r : Node) (e : Entry)
    → IsAvl l
    → IsAvl r
    → node_height l ≡ node_height r + 2
    → Balanced l r (if leans_left l then rotate_left_child l r e else rotate_twice_left l r e)
unfolding rotate_left_child rotate_right_child rotate_twice_left
tall_left leaf r e u v h = absurd (omega arith)
tall_left (node a leaf k x) r e u v h =
    rw (le→leb 0 (node_height a) (omega arith)) (single_left a leaf r k x e u v h (omega arith))
tall_left (node a (node c d m y) k x) r e u v h = elim (dec_lt (node_height a) m) [
  | yes p ↦ rw (lt→leb m (node_height a) p) (double_left a c d r k m x y e u v h p)
  | no p ↦
      rw (le→leb m (node_height a) (omega arith))
        (single_left a (node c d m y) r k x e u v h (omega arith))
]

tall_right :
    (l r : Node) (e : Entry)
    → IsAvl l
    → IsAvl r
    → node_height r ≡ node_height l + 2
    → Balanced l r (if leans_right r then rotate_right_child l r e else rotate_twice_right l r e)
unfolding rotate_left_child rotate_right_child rotate_twice_right
tall_right l leaf e u v h = absurd (omega arith)
tall_right l (node leaf b k x) e u v h =
    rw (le→leb 0 (node_height b) (omega arith)) (single_right leaf b l k x e u v h (omega arith))
tall_right l (node (node c d m y) b k x) e u v h = elim (dec_lt (node_height b) m) [
  | yes p ↦ rw (lt→leb m (node_height b) p) (double_right b c d l k m x y e u v h p)
  | no p ↦
      rw (le→leb m (node_height b) (omega arith))
        (single_right (node c d m y) b l k x e u v h (omega arith))
]

-- Over two AVL trees whose heights differ by at most two, `balance` makes an AVL tree. Its height is
-- that of a node over them, or one less, and not less if their heights differ by one at most.
pub balance-Balanced :
    (l r : Node) (e : Entry)
    → IsAvl l
    → IsAvl r
    → node_height l ≤ node_height r + 2
    → node_height r ≤ node_height l + 2
    → Balanced l r (balance l r e)
unfolding balance
balance-Balanced l r e u v p q = elim (ℕ_discrete (node_height l) (node_height r + 2)) [
  | yes h ↦ rw (eq→== _ _ h) (tall_left l r e u v h)
  | no h ↦ rw (ne→== _ _ h) (elim (ℕ_discrete (node_height r) (node_height l + 2)) [
    | yes k ↦ rw (eq→== _ _ k) (tall_right l r e u v k)
    | no k ↦ rw (ne→== _ _ k) (linked-Balanced l r e u v (omega arith) (omega arith))
  ])
]

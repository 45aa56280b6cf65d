-- ===== src/RbTree/Insert.antt =====
-- `_rb_insert_balance` keeps the conditions of a red-black tree.
use libsvr.Common.{ℕ, ◌+◌, ◌≡◌, refl, sym, ◌∙◌, arith, false, Option, some, List, [], ◌∷◌, subst}
use mathlib.Core.List.{append_assoc}
use libsvr.AvlTree.{Entry}
use libsvr.RbTree.{
  Color, red, black, RbNode, leaf, node, Parent, left_of, right_of, whole, is_red, painted,
  insert_balance,
}
use libsvr.RbTree.Level.{
  black_height, IsLevel, IsWay, inorder, Balanced, finish, stop, IsRb-painted, inorder-whole,
  not_red,
}

pub regrow : {r : Option RbNode} {xs ys : List Entry} → xs ≡ ys → Balanced r xs → Balanced r ys
regrow h b = record { root = b.root; made = b.made; rb = b.rb; entries = b.entries ∙ h }

-- the way up from a black grandparent, at a node of its height
above_black :
    (c : Color) (u : RbNode) (e : Entry) (up : List Parent) (k : ℕ)
    → IsWay (black_height (node c u e u)) up
    → c ≡ black
    → k ≡ black_height u + 1
    → IsWay k up
unfolding black_height
above_black c u e up k w q h =
    subst (λ i. IsWay i up) (sym h) (subst (λ d. IsWay (black_height (node d u e u)) up) q w)

-- the rotations, of a red node with black children, its red parent with the black sibling `s`, and the
-- black uncle `u`
module _ (a : RbNode) (x : Entry) (b s : RbNode) (f e : Entry) (u : RbNode) (up : List Parent)
    (c : Color) (la : IsLevel (node red a x b)) (ls : IsLevel s) (lu : IsLevel u)
    (hs : black_height s ≡ black_height a) (hu : black_height u ≡ black_height s)
    (bs : is_red s ≡ false) (bu : is_red u ≡ false) (bc : c ≡ black)
    (w : IsWay (black_height (node c u e u)) up) where
  outer_left :
      Balanced
        (some (painted black (whole (node black (node red a x b) f (node red s e u)) up)))
        (inorder (whole (node c (node red (node red a x b) f s) e u) up))
  unfolding black_height inorder
  outer_left =
      finish _ _ up (la, (ls, lu, sym hu, λ q. (bs, bu)), sym hs, λ q. (not_red _ q, not_red _ q))
        refl (above_black c u e up _ w bc (omega arith))
        (sym (append_assoc (inorder (node red a x b)) (f ∷ inorder s) (e ∷ inorder u)))

  inner_left :
      Balanced
        (some (painted black (whole (node black (node red s f a) x (node red b e u)) up)))
        (inorder (whole (node c (node red s f (node red a x b)) e u) up))
  unfolding black_height inorder
  inner_left =
      finish _ _ up
        (
          (ls, la.0, hs, λ q. (bs, (la.3 refl).0)),
          (la.1, lu, omega (arith, la.2), λ q. ((la.3 refl).1, bu)),
          omega (arith, la.2),
          λ q. (not_red _ q, not_red _ q),
        )
        refl (above_black c u e up _ w bc (omega arith)) (simp (append_assoc))

  outer_right :
      Balanced
        (some (painted black (whole (node black (node red u e s) f (node red a x b)) up)))
        (inorder (whole (node c u e (node red s f (node red a x b))) up))
  unfolding black_height inorder
  outer_right =
      finish _ _ up ((lu, ls, hu, λ q. (bu, bs)), la, hu ∙ hs, λ q. (not_red _ q, not_red _ q)) refl
        (above_black c u e up _ w bc (omega arith))
        (append_assoc (inorder u) (e ∷ inorder s) (f ∷ inorder (node red a x b)))

  inner_right :
      Balanced
        (some (painted black (whole (node black (node red u e a) x (node red b f s)) up)))
        (inorder (whole (node c u e (node red (node red a x b) f s)) up))
  unfolding black_height inorder
  inner_right =
      finish _ _ up
        (
          (lu, la.0, hu ∙ hs, λ q. (bu, (la.3 refl).0)),
          (la.1, ls, omega (arith, la.2), λ q. ((la.3 refl).1, bs)),
          omega (arith, la.2),
          λ q. (not_red _ q, not_red _ q),
        )
        refl (above_black c u e up _ w bc (omega arith)) (simp (append_assoc))

-- A red node whose subtree is in order, with the way up from it: `_rb_insert_balance` never follows a
-- null pointer, and it makes a red-black tree with the same entries.
pub insert_balance-Balanced :
    (a : RbNode) (x : Entry) (b : RbNode) (up : List Parent)
    → IsLevel (node red a x b)
    → IsWay (black_height a) up
    → Balanced (insert_balance (node red a x b) up) (inorder (whole (node red a x b) up))
unfolding insert_balance whole black_height inorder
insert_balance-Balanced a x b [] l w = record {
  root = node black a x b;
  made = refl;
  rb = IsRb-painted (node red a x b) l;
  entries = refl;
}
insert_balance-Balanced a x b (left_of red e1 s ∷ []) l w = absurd (w.2 refl).1
insert_balance-Balanced a x b (right_of red s e1 ∷ []) l w = absurd (w.2 refl).1
insert_balance-Balanced a x b (left_of black e1 s ∷ []) l w =
    stop (node red a x b) (left_of black e1 s) [] l w refl
insert_balance-Balanced a x b (right_of black s e1 ∷ []) l w =
    stop (node red a x b) (right_of black s e1) [] l w refl
insert_balance-Balanced a x b (left_of black e1 s ∷ left_of c e u ∷ up) l w =
    stop (node red a x b) (left_of black e1 s) (left_of c e u ∷ up) l w refl
insert_balance-Balanced a x b (right_of black s e1 ∷ left_of c e u ∷ up) l w =
    stop (node red a x b) (right_of black s e1) (left_of c e u ∷ up) l w refl
insert_balance-Balanced a x b (left_of red e1 s ∷ left_of c e leaf ∷ up) (la, lb, h, q)
      (s1, h1, q1, (s2, h2, q2, ws)) =
    outer_left a x b s e1 e leaf up c (la, lb, h, q) s1 s2 h1 h2 (q1 refl).0 refl (q1 refl).1 ws
insert_balance-Balanced a x b (left_of red e1 s ∷ left_of c e (node red u1 y u2) ∷ up)
      (la, lb, h, q) (s1, h1, q1, (s2, h2, q2, ws)) =
    regrow (inorder-whole _ _ up refl) (
      insert_balance-Balanced (node black (node red a x b) e1 s) e (node black u1 y u2) up
        (
          ((la, lb, h, q), s1, sym h1, λ z. (not_red _ z, not_red _ z)),
          (s2.0, s2.1, s2.2, λ z. (not_red _ z, not_red _ z)),
          omega arith,
          λ z. (refl, refl),
        )
        (above_black c (node red u1 y u2) e up _ ws (q1 refl).1 (omega arith)))
insert_balance-Balanced a x b (left_of red e1 s ∷ left_of c e (node black u1 y u2) ∷ up)
      (la, lb, h, q) (s1, h1, q1, (s2, h2, q2, ws)) =
    outer_left a x b s e1 e (node black u1 y u2) up c (la, lb, h, q) s1 s2 h1 h2 (q1 refl).0 refl
      (q1 refl).1 ws
insert_balance-Balanced a x b (right_of red s e1 ∷ left_of c e leaf ∷ up) (la, lb, h, q)
      (s1, h1, q1, (s2, h2, q2, ws)) =
    inner_left a x b s e1 e leaf up c (la, lb, h, q) s1 s2 h1 h2 (q1 refl).0 refl (q1 refl).1 ws
insert_balance-Balanced a x b (right_of red s e1 ∷ left_of c e (node red u1 y u2) ∷ up)
      (la, lb, h, q) (s1, h1, q1, (s2, h2, q2, ws)) =
    regrow (inorder-whole _ _ up refl) (
      insert_balance-Balanced (node black s e1 (node red a x b)) e (node black u1 y u2) up
        (
          (s1, (la, lb, h, q), h1, λ z. (not_red _ z, not_red _ z)),
          (s2.0, s2.1, s2.2, λ z. (not_red _ z, not_red _ z)),
          omega arith,
          λ z. (refl, refl),
        )
        (above_black c (node red u1 y u2) e up _ ws (q1 refl).1 (omega arith)))
insert_balance-Balanced a x b (right_of red s e1 ∷ left_of c e (node black u1 y u2) ∷ up)
      (la, lb, h, q) (s1, h1, q1, (s2, h2, q2, ws)) =
    inner_left a x b s e1 e (node black u1 y u2) up c (la, lb, h, q) s1 s2 h1 h2 (q1 refl).0 refl
      (q1 refl).1 ws
insert_balance-Balanced a x b (left_of black e1 s ∷ right_of c u e ∷ up) l w =
    stop (node red a x b) (left_of black e1 s) (right_of c u e ∷ up) l w refl
insert_balance-Balanced a x b (right_of black s e1 ∷ right_of c u e ∷ up) l w =
    stop (node red a x b) (right_of black s e1) (right_of c u e ∷ up) l w refl
insert_balance-Balanced a x b (left_of red e1 s ∷ right_of c leaf e ∷ up) (la, lb, h, q)
      (s1, h1, q1, (s2, h2, q2, ws)) =
    inner_right a x b s e1 e leaf up c (la, lb, h, q) s1 s2 h1 h2 (q1 refl).0 refl (q1 refl).1 ws
insert_balance-Balanced a x b (left_of red e1 s ∷ right_of c (node red u1 y u2) e ∷ up)
      (la, lb, h, q) (s1, h1, q1, (s2, h2, q2, ws)) =
    regrow (inorder-whole _ _ up refl) (
      insert_balance-Balanced (node black u1 y u2) e (node black (node red a x b) e1 s) up
        (
          (s2.0, s2.1, s2.2, λ z. (not_red _ z, not_red _ z)),
          ((la, lb, h, q), s1, sym h1, λ z. (not_red _ z, not_red _ z)),
          omega arith,
          λ z. (refl, refl),
        )
        (above_black c (node red u1 y u2) e up _ ws (q1 refl).1 refl))
insert_balance-Balanced a x b (left_of red e1 s ∷ right_of c (node black u1 y u2) e ∷ up)
      (la, lb, h, q) (s1, h1, q1, (s2, h2, q2, ws)) =
    inner_right a x b s e1 e (node black u1 y u2) up c (la, lb, h, q) s1 s2 h1 h2 (q1 refl).0 refl
      (q1 refl).1 ws
insert_balance-Balanced a x b (right_of red s e1 ∷ right_of c leaf e ∷ up) (la, lb, h, q)
      (s1, h1, q1, (s2, h2, q2, ws)) =
    outer_right a x b s e1 e leaf up c (la, lb, h, q) s1 s2 h1 h2 (q1 refl).0 refl (q1 refl).1 ws
insert_balance-Balanced a x b (right_of red s e1 ∷ right_of c (node red u1 y u2) e ∷ up)
      (la, lb, h, q) (s1, h1, q1, (s2, h2, q2, ws)) =
    regrow (inorder-whole _ _ up refl) (
      insert_balance-Balanced (node black u1 y u2) e (node black s e1 (node red a x b)) up
        (
          (s2.0, s2.1, s2.2, λ z. (not_red _ z, not_red _ z)),
          (s1, (la, lb, h, q), h1, λ z. (not_red _ z, not_red _ z)),
          omega arith,
          λ z. (refl, refl),
        )
        (above_black c (node red u1 y u2) e up _ ws (q1 refl).1 refl))
insert_balance-Balanced a x b (right_of red s e1 ∷ right_of c (node black u1 y u2) e ∷ up)
      (la, lb, h, q) (s1, h1, q1, (s2, h2, q2, ws)) =
    outer_right a x b s e1 e (node black u1 y u2) up c (la, lb, h, q) s1 s2 h1 h2 (q1 refl).0 refl
      (q1 refl).1 ws

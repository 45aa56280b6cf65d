-- ===== src/RbTree/Erase/Balance.antt =====
-- `_rb_erase_balance` keeps the conditions of a red-black tree.
use libsvr.Common.{
  ◌+◌, ◌≡◌, refl, sym, ◌∙◌, true, false, some, List, [], ◌∷◌, subst, Bool-cases, inl, inr,
}
use libsvr.RbTree.{
  red, black, RbNode, leaf, node, Parent, left_of, right_of, whole, is_red, painted,
}
use libsvr.RbTree.Level.{black_height, IsLevel, IsWay, inorder, Balanced, inorder-painted}
use libsvr.RbTree.Erase.{erase_balance}
use libsvr.RbTree.Erase.Settle.{painted_not_red}
use libsvr.RbTree.Erase.Short.{red_node, same_black, short, true-ne-false}
use libsvr.RbTree.Erase.Left.{black_left, red_left}
use libsvr.RbTree.Erase.Right.{black_right, red_right}

-- a round for a node that is not red
cold-Balanced :
    (n : RbNode) (p : Parent) (up : List Parent)
    → IsLevel n
    → is_red n ≡ false
    → IsWay (black_height n + 1) (p ∷ up)
    → ((m : RbNode)
        → IsLevel (painted black m)
        → IsWay (black_height m + 1) up
        → Balanced (erase_balance m up) (inorder (whole m up)))
    → Balanced (erase_balance n (p ∷ up)) (inorder (whole n (p ∷ up)))
unfolding black_height
cold-Balanced n (left_of c e leaf) up l b w again = absurd (short (black_height n) w.1)
cold-Balanced n (left_of c e (node black a f r)) up l b w again =
    black_left n c e up l b a f r w again
cold-Balanced n (left_of c e (node red leaf f r)) up l b w again =
    absurd (short (black_height n) w.1)
cold-Balanced n (left_of c e (node red (node red a x b') f r)) up l b (ls, hs, q, ws) again =
    absurd (true-ne-false (ls.3 refl).0)
cold-Balanced n (left_of c e (node red (node black a x b') f r)) up l b w again =
    red_left n c e up l b a x b' f r w
cold-Balanced n (right_of c leaf e) up l b w again = absurd (short (black_height n) w.1)
cold-Balanced n (right_of c (node black a f r) e) up l b w again =
    black_right n c e up l b a f r w again
cold-Balanced n (right_of c (node red leaf f leaf) e) up l b w again =
    absurd (short (black_height n) w.1)
cold-Balanced n (right_of c (node red (node d a x b') f leaf) e) up l b w again =
    absurd (short (black_height n) (sym w.0.2 ∙ w.1))
cold-Balanced n (right_of c (node red o f (node red a x b')) e) up l b (ls, hs, q, ws) again =
    absurd (true-ne-false (ls.3 refl).1)
cold-Balanced n (right_of c (node red o f (node black a x b')) e) up l b w again =
    red_right n c e up l b o f a x b' w

-- the last round, of a red node, which is painted black
hot_step :
    (n : RbNode) (p : Parent) (up : List Parent)
    → is_red n ≡ true
    → erase_balance n (p ∷ up) ≡ some (whole (painted black n) (p ∷ up))
unfolding erase_balance
hot_step n (left_of c e leaf) up h = rw h
hot_step n (left_of c e (node black a f r)) up h = rw h
hot_step n (left_of c e (node red leaf f r)) up h = rw h
hot_step n (left_of c e (node red (node d a x b) f r)) up h = rw h
hot_step n (right_of c leaf e) up h = rw h
hot_step n (right_of c (node black a f r) e) up h = rw h
hot_step n (right_of c (node red o f leaf) e) up h = rw h
hot_step n (right_of c (node red o f (node d a x b)) e) up h = rw h

-- A node with the way up for one black node more: `_rb_erase_balance` never follows a null pointer, and
-- it makes a red-black tree with the same entries.
pub erase_balance-Balanced :
    (n : RbNode) (up : List Parent)
    → IsLevel (painted black n)
    → IsWay (black_height n + 1) up
    → Balanced (erase_balance n up) (inorder (whole n up))
unfolding erase_balance whole
erase_balance-Balanced n [] l w = record {
  root = painted black n;
  made = refl;
  rb = (l, painted_not_red n);
  entries = inorder-painted n;
}
erase_balance-Balanced n (p ∷ up) l w = elim (Bool-cases (is_red n)) [
  | inl hot ↦ rw (hot_step n p up hot) (red_node n p up l hot w)
  | inr cold ↦
      cold-Balanced n p up (subst IsLevel (same_black n cold) l) cold w
        (λ m. erase_balance-Balanced m up)
]

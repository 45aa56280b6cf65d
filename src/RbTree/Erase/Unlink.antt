-- ===== src/RbTree/Erase/Unlink.antt =====
-- Taking a node out keeps the conditions of a red-black tree.
use mathlib.Core.List.{append-nil}
use libsvr.Common.{◌≡◌, refl, sym, ap, false, List, [], ◌∷◌, ◌++◌, subst}
use libsvr.AvlTree.{Entry}
use libsvr.RbTree.{Color, red, black, RbNode, leaf, node, Parent, left_of, right_of, is_red}
use libsvr.RbTree.Level.{black_height, IsLevel, UnderBlack, IsWay, inorder, Balanced, IsRb-painted}
use libsvr.RbTree.Insert.{regrow}
use libsvr.RbTree.Descend.{around, inorder-around, child_black, red_node}
use libsvr.RbTree.Erase.Settle.{same_height}
use libsvr.RbTree.Erase.{unlinked, first, unlink_first, erase_at}
use libsvr.RbTree.Erase.Short.{black_whole}
use libsvr.RbTree.Erase.Balance.{erase_balance-Balanced}

-- the entries but the first
unfoldable pub others : RbNode → List Entry
others leaf = []
others (node c leaf e r) = inorder r
others (node c (node d a x b) e r) = others (node d a x b) ++ (e ∷ inorder r)

first-others :
    (e : Entry) (g : Color) (l : RbNode) (f : Entry) (r : RbNode)
    → inorder (node g l f r) ≡ first e (node g l f r) ∷ others (node g l f r)
unfolding inorder others
first-others e g leaf f r = refl
first-others e g (node d a x b) f r = ap (λ xs. xs ++ (f ∷ inorder r)) (first-others f d a x b)

-- what is known of a node of color `c` and height `h` on the way up
abbrev pub Under : Color → List Parent → Type 0
Under c up = c ≡ red → UnderBlack up

unlinked-Balanced :
    (c : Color) (n : RbNode) (e : Entry) (up : List Parent)
    → IsLevel n
    → IsWay (black_height (node c n e n)) up
    → Under c up
    → (c ≡ red → is_red n ≡ false)
    → Balanced (unlinked c n up) (around up (inorder n))
unfolding unlinked black_height
unlinked-Balanced black n e up l w u f =
    regrow (inorder-around n up) (erase_balance-Balanced n up (IsRb-painted n l).0 w)
unlinked-Balanced red n e [] l w u f = absurd (u refl)
unlinked-Balanced red n e (p ∷ up) l w u f =
    regrow (inorder-around n (p ∷ up)) (black_whole n n p up l (f refl) w refl)

unlink_first-Balanced :
    (c : Color) (l : RbNode) (e : Entry) (r : RbNode) (up : List Parent)
    → IsLevel (node c l e r)
    → IsWay (black_height (node c l e r)) up
    → Under c up
    → Balanced (unlink_first (node c l e r) up) (around up (others (node c l e r)))
unfolding unlink_first others around
unlink_first-Balanced c leaf e r up (ll, lr, h, f) w u =
    unlinked-Balanced c r e up lr (subst (λ k. IsWay k up) (same_height e c leaf e r r h) w) u
      (λ q. (f q).1)
unlink_first-Balanced c (node d a x b) e r up (ll, lr, h, f) w u =
    unlink_first-Balanced d a x b (left_of c e r ∷ up) ll
      (
        lr,
        sym h,
        λ q. ((f q).1, u q),
        subst (λ k. IsWay k up) (same_height e c (node d a x b) e r r h) w,
      )
      (λ q. child_black c (is_red (node d a x b)) (λ z. (f z).0) (red_node d a x b q))

-- Taking the node with these children out, from a tree in which it stands: `rb_tree_erase` never
-- follows a null pointer, and it makes a red-black tree of the other entries in order.
pub erase_at-Balanced :
    (up : List Parent) (c : Color) (l : RbNode) (e : Entry) (r : RbNode)
    → IsLevel (node c l e r)
    → IsWay (black_height (node c l e r)) up
    → Under c up
    → Balanced (erase_at up c l e r) (around up (inorder l ++ inorder r))
unfolding erase_at inorder around
erase_at-Balanced up c leaf e r (ll, lr, h, f) w u =
    unlinked-Balanced c r e up lr (subst (λ k. IsWay k up) (same_height e c leaf e r r h) w) u
      (λ q. (f q).1)
erase_at-Balanced up c (node d a x b) e leaf (ll, lr, h, f) w u =
    regrow (ap (around up) (sym (append-nil _))) (
      unlinked-Balanced c (node d a x b) e up ll
        (subst (λ k. IsWay k up) (same_height e c (node d a x b) e leaf (node d a x b) refl) w) u
        (λ q. (f q).0))
erase_at-Balanced up c (node d a x b) e (node g l f' r) (ll, lr, h, f) w u =
    regrow (ap (λ xs. around up (inorder (node d a x b) ++ xs)) (sym (first-others e g l f' r))) (
      unlink_first-Balanced g l f' r (right_of c (node d a x b) (first e (node g l f' r)) ∷ up) lr
        (
          ll,
          h,
          λ q. ((f q).0, u q),
          subst (λ k. IsWay k up)
              (same_height (first e (node g l f' r)) c (node d a x b) e (node g l f' r)
                (node d a x b) refl)
              w,
        )
        (λ q. child_black c (is_red (node g l f' r)) (λ z. (f z).1) (red_node g l f' r q)))

-- ===== src/RbTree/Erase/Short.antt =====
-- A node that is one black node short: what holds on the way up from it.
use libsvr.Common.{
  ℕ, ◌+◌, ◌≡◌, refl, sym, ap, ◌∙◌, arith, true, false, Option, some, List, [], ◌∷◌, subst,
}
use libsvr.AvlTree.{Entry}
use libsvr.RbTree.{
  Color, red, black, RbNode, leaf, node, Parent, left_of, right_of, whole, is_red, painted, join,
}
use libsvr.RbTree.Level.{
  black_height, IsLevel, UnderBlack, IsWay, Fits, Fits-black, Fits-under, inorder, Balanced,
  IsRb-painted, IsLevel-whole, inorder-whole, inorder-painted,
}
use libsvr.RbTree.Erase.{top}
use libsvr.RbTree.Erase.Settle.{Settled, painted_height, painted_not_red}

-- the root of a tree is the last parent, and it is black
root_black :
    (n : RbNode) (h : ℕ) (p : Parent) (up : List Parent)
    → IsWay h (p ∷ up)
    → is_red (whole n (p ∷ up)) ≡ false
unfolding whole
root_black n h (left_of red e r) [] w = absurd (w.2 refl).1
root_black n h (right_of red l e) [] w = absurd (w.2 refl).1
root_black n h (left_of black e r) [] w = refl
root_black n h (right_of black l e) [] w = refl
root_black n h p (q ∷ up) w = root_black (join n p) _ q up w.3

pub black_whole :
    (m n : RbNode) (p : Parent) (up : List Parent)
    → IsLevel m
    → is_red m ≡ false
    → IsWay (black_height m) (p ∷ up)
    → inorder m ≡ inorder n
    → Balanced (some (whole m (p ∷ up))) (inorder (whole n (p ∷ up)))
black_whole m n p up l b w h = record {
  root = whole m (p ∷ up);
  made = refl;
  rb = (IsLevel-whole m (p ∷ up) l w (Fits-black m (p ∷ up) b), root_black m _ p up w);
  entries = inorder-whole m n (p ∷ up) h;
}

-- a red node takes the missing black itself
pub red_node :
    (n : RbNode) (p : Parent) (up : List Parent)
    → IsLevel (painted black n)
    → is_red n ≡ true
    → IsWay (black_height n + 1) (p ∷ up)
    → Balanced (some (whole (painted black n) (p ∷ up))) (inorder (whole n (p ∷ up)))
red_node n p up l b w =
    black_whole (painted black n) n p up l (painted_not_red n)
      (subst (λ k. IsWay k (p ∷ up)) (sym (painted_height n b)) w) (inorder-painted n)

-- the tree with a settled subtree in it
pub Settled-top :
    (c : Color) (r : Option RbNode) (n : RbNode) (h : ℕ) (up : List Parent)
    → Settled c r h (inorder n)
    → IsWay h up
    → (c ≡ red → UnderBlack up)
    → Balanced (top up r) (inorder (whole n up))
Settled-top c r n h up s w u = record {
  root = painted black (whole s.root up);
  made = rw s.made refl;
  rb =
      IsRb-painted (whole s.root up)
        (IsLevel-whole s.root up s.level (subst (λ k. IsWay k up) (sym s.high) w) (fits c refl));
  entries = inorder-painted (whole s.root up) ∙ inorder-whole s.root n up s.entries;
}
  where
    fits : (d : Color) → d ≡ c → Fits s.root up
    fits red q = Fits-under s.root up (u (sym q))
    fits black q = Fits-black s.root up (s.colored (sym q))

pub same_black : (n : RbNode) → is_red n ≡ false → painted black n ≡ n
same_black leaf q = refl
same_black (node red l e r) q = ground arith
same_black (node black l e r) q = refl

pub short : (k : ℕ) → 0 ≡ k + 1 → ⊥
short k e = ground arith

black_red : black ≡ red → ⊥
black_red e = ground arith

pub true-ne-false : true ≡ false → ⊥
true-ne-false z = ground arith

pub grown :
    (c : Color) (n : RbNode) (e : Entry) (m s : RbNode)
    → black_height s ≡ black_height n + 1
    → black_height (node c s e s) ≡ black_height (node c n e m) + 1
unfolding black_height
grown red n e m s h = h
grown black n e m s h = ap (λ k. k + 1) h

-- above a red sibling the parent is black, and the sibling comes between them
pub turned-IsWay :
    (c : Color) (s : RbNode) (e : Entry) (up : List Parent) (k : ℕ)
    → IsWay (black_height (node c s e s)) up
    → (c ≡ red → is_red s ≡ false)
    → is_red s ≡ true
    → black_height s ≡ k
    → IsWay (k + 1) up
unfolding black_height
turned-IsWay red s e up k w f q h = absurd (true-ne-false (sym q ∙ f refl))
turned-IsWay black s e up k w f q h = subst (λ i. IsWay i up) (ap (λ i. i + 1) h) w

pub under_turned :
    (r : RbNode) (up : List Parent) → black ≡ red → (is_red r ≡ false) × UnderBlack up
under_turned r up q = absurd (black_red q)

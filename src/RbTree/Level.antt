-- ===== src/RbTree/Level.antt =====
-- The conditions of a red-black tree, and where the loop of the insertions ends.
use libsvr.Common.{
  ℕ, ◌+◌, ◌≡◌, refl, sym, ap, ◌∙◌, arith, Bool, false, Option, some, List, [], ◌∷◌, ◌++◌, subst,
}
use libsvr.AvlTree.{Entry}
use libsvr.RbTree.{
  red, black, RbNode, leaf, node, Parent, left_of, right_of, join, whole, is_red, color_of, painted,
}

-- the black nodes on the way to a leaf, by the left
unfoldable pub black_height : RbNode → ℕ
black_height leaf = 0
black_height (node red l e r) = black_height l
black_height (node black l e r) = black_height l + 1

-- the two children of a red node are black, and all ways down have the same number of black nodes
abbrev pub IsLevel : RbNode → Type 0
IsLevel leaf = Unit
IsLevel (node c l e r) =
    IsLevel l
    × IsLevel r
    × (black_height l ≡ black_height r)
    × (c ≡ red → (is_red l ≡ false) × (is_red r ≡ false))

abbrev pub IsRb : RbNode → Type 0
IsRb n = IsLevel n × (is_red n ≡ false)

abbrev pub sibling : Parent → RbNode
sibling (left_of c e r) = r
sibling (right_of c l e) = l

-- the parent of a red parent is there and black: the root is black
abbrev pub UnderBlack : List Parent → Type 0
UnderBlack [] = ⊥
UnderBlack (p ∷ up) = color_of p ≡ black

-- the way up from a node of black height `h`
abbrev pub IsWay : ℕ → List Parent → Type 0
IsWay h [] = Unit
IsWay h (p ∷ up) =
    IsLevel (sibling p)
    × (black_height (sibling p) ≡ h)
    × (color_of p ≡ red → (is_red (sibling p) ≡ false) × UnderBlack up)
    × IsWay (black_height (join (sibling p) p)) up

-- under a red parent there is a black node
abbrev pub Fits : RbNode → List Parent → Type 0
Fits n [] = Unit
Fits n (p ∷ up) = color_of p ≡ red → is_red n ≡ false

pub Fits-black : (n : RbNode) (up : List Parent) → is_red n ≡ false → Fits n up
Fits-black n [] b = tt
Fits-black n (p ∷ up) b = λ e. b

pub Fits-under : (n : RbNode) (up : List Parent) → UnderBlack up → Fits n up
Fits-under n [] u = tt
Fits-under n (p ∷ up) u = λ e. ground (arith, u)

pub not_red : (b : Bool) → black ≡ red → b ≡ false
not_red b e = ground arith

IsLevel-join :
    (n : RbNode) (p : Parent) (up : List Parent)
    → IsLevel n
    → IsWay (black_height n) (p ∷ up)
    → Fits n (p ∷ up)
    → IsLevel (join n p)
      × (black_height (join n p) ≡ black_height (join (sibling p) p))
      × Fits (join n p) up
unfolding black_height
IsLevel-join n (left_of red e r) up l (s, h, w, ws) f =
    ((l, s, sym h, λ q. (f q, (w q).0)), sym h, Fits-under (join n (left_of red e r)) up (w refl).1)
IsLevel-join n (left_of black e r) up l (s, h, w, ws) f = (
  (l, s, sym h, λ q. (not_red _ q, not_red _ q)),
  ap (λ k. k + 1) (sym h),
  Fits-black (join n (left_of black e r)) up refl,
)
IsLevel-join n (right_of red b e) up l (s, h, w, ws) f =
    ((s, l, h, λ q. ((w q).0, f q)), refl, Fits-under (join n (right_of red b e)) up (w refl).1)
IsLevel-join n (right_of black b e) up l (s, h, w, ws) f = (
  (s, l, h, λ q. (not_red _ q, not_red _ q)),
  refl,
  Fits-black (join n (right_of black b e)) up refl,
)

pub IsLevel-whole :
    (n : RbNode) (up : List Parent)
    → IsLevel n
    → IsWay (black_height n) up
    → Fits n up
    → IsLevel (whole n up)
unfolding whole
IsLevel-whole n [] l w f = l
IsLevel-whole n (p ∷ up) l w f =
    let (l', h, f') = IsLevel-join n p up l w f in
    IsLevel-whole (join n p) up l' (subst (λ k. IsWay k up) (sym h) w.3) f'

pub IsRb-painted : (n : RbNode) → IsLevel n → IsRb (painted black n)
IsRb-painted leaf l = (tt, refl)
IsRb-painted (node c a x b) (la, lb, h, f) = ((la, lb, h, λ q. (not_red _ q, not_red _ q)), refl)

unfoldable pub inorder : RbNode → List Entry
inorder leaf = []
inorder (node c l e r) = inorder l ++ (e ∷ inorder r)

pub inorder-painted : (n : RbNode) → inorder (painted black n) ≡ inorder n
unfolding inorder
inorder-painted leaf = refl
inorder-painted (node c a x b) = refl

inorder-join :
    (m n : RbNode) (p : Parent) → inorder m ≡ inorder n → inorder (join m p) ≡ inorder (join n p)
unfolding inorder
inorder-join m n (left_of c e r) h = ap (λ xs. xs ++ (e ∷ inorder r)) h
inorder-join m n (right_of c l e) h = ap (λ xs. inorder l ++ (e ∷ xs)) h

pub inorder-whole :
    (m n : RbNode) (up : List Parent)
    → inorder m ≡ inorder n
    → inorder (whole m up) ≡ inorder (whole n up)
unfolding whole
inorder-whole m n [] h = h
inorder-whole m n (p ∷ up) h = inorder-whole (join m p) (join n p) up (inorder-join m n p h)

-- a red-black tree came out, with the given entries
pub record Balanced (r : Option RbNode) (xs : List Entry) : Type 0 where
  pub root : RbNode
  pub made : r ≡ some root
  pub rb : IsRb root
  pub entries : inorder root ≡ xs

-- a black node `m` where `n` was ends the loop
pub finish :
    (m n : RbNode) (up : List Parent)
    → IsLevel m
    → is_red m ≡ false
    → IsWay (black_height m) up
    → inorder m ≡ inorder n
    → Balanced (some (painted black (whole m up))) (inorder (whole n up))
finish m n up l b w h = record {
  root = painted black (whole m up);
  made = refl;
  rb = IsRb-painted (whole m up) (IsLevel-whole m up l w (Fits-black m up b));
  entries = inorder-painted (whole m up) ∙ inorder-whole m n up h;
}

-- so does a node whose parent is black
pub stop :
    (n : RbNode) (p : Parent) (up : List Parent)
    → IsLevel n
    → IsWay (black_height n) (p ∷ up)
    → color_of p ≡ black
    → Balanced (some (painted black (whole n (p ∷ up)))) (inorder (whole n (p ∷ up)))
stop n p up l w b = record {
  root = painted black (whole n (p ∷ up));
  made = refl;
  rb = IsRb-painted (whole n (p ∷ up)) (IsLevel-whole n (p ∷ up) l w (λ e. ground (arith, b)));
  entries = inorder-painted (whole n (p ∷ up));
}

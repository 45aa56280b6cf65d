-- ===== src/RbTree/Erase/Settle.antt =====
-- The last rotations of `_rb_erase_balance`.
use mathlib.Core.List.{append_assoc}
use libsvr.Common.{
  ℕ, ◌+◌, ◌≡◌, refl, sym, ap, ◌∙◌, arith, true, false, Option, some, List, ◌∷◌, ◌++◌, Bool-cases,
  inl, inr,
}
use libsvr.AvlTree.{Entry}
use libsvr.RbTree.{Color, red, black, RbNode, leaf, node, is_red, painted}
use libsvr.RbTree.Level.{black_height, IsLevel, inorder, IsRb-painted, inorder-painted, not_red}
use libsvr.RbTree.Erase.{both_black, settle_left, settle_right}

-- a subtree with a root of color `c` came out, of the height of the tree that was there
pub record Settled (c : Color) (r : Option RbNode) (h : ℕ) (xs : List Entry) : Type 0 where
  pub root : RbNode
  pub made : r ≡ some root
  pub level : IsLevel root
  pub high : black_height root ≡ h
  pub colored : c ≡ black → is_red root ≡ false
  pub entries : inorder root ≡ xs

pub painted_height :
    (n : RbNode) → is_red n ≡ true → black_height (painted black n) ≡ black_height n + 1
unfolding black_height
painted_height leaf q = ground arith
painted_height (node red l e r) q = refl
painted_height (node black l e r) q = ground arith

pub same_height :
    (e' : Entry) (c : Color) (l : RbNode) (e : Entry) (r m : RbNode)
    → black_height l ≡ black_height m
    → black_height (node c l e r) ≡ black_height (node c m e' m)
unfolding black_height
same_height e' red l e r m h = h
same_height e' black l e r m h = ap (λ k. k + 1) h

black_root :
    (c : Color) (l : RbNode) (e : Entry) (r : RbNode) → c ≡ black → is_red (node c l e r) ≡ false
black_root red l e r q = ground arith
black_root black l e r q = refl

pub painted_not_red : (n : RbNode) → is_red (painted black n) ≡ false
painted_not_red leaf = refl
painted_not_red (node c l e r) = refl

module _ (c : Color) (n : RbNode) (e : Entry) (l : RbNode) (f : Entry) (r : RbNode) (ln : IsLevel n)
    (ll : IsLevel l) (lr : IsLevel r) (hn : black_height l ≡ black_height n)
    (hr : black_height l ≡ black_height r) where
  abbrev sib : RbNode
  sib = node black l f r

  one_left :
      is_red r ≡ true
      → Settled c
          (some (node c (node black n e l) f (painted black r)))
          (black_height (node c sib e sib))
          (inorder n ++ (e ∷ inorder sib))
  unfolding black_height inorder
  one_left q = record {
    root = node c (node black n e l) f (painted black r);
    made = refl;
    level = (
      (ln, ll, sym hn, λ z. (not_red _ z, not_red _ z)),
      (IsRb-painted r lr).0,
      ap (λ k. k + 1) (sym hn ∙ hr) ∙ sym (painted_height r q),
      λ z. (refl, painted_not_red r),
    );
    high = same_height e c (node black n e l) f (painted black r) sib (ap (λ k. k + 1) (sym hn));
    colored = black_root c _ _ _;
    entries =
        ap (λ xs. (inorder n ++ (e ∷ inorder l)) ++ (f ∷ xs)) (inorder-painted r)
        ∙ append_assoc (inorder n) (e ∷ inorder l) (f ∷ inorder r);
  }

  one_right :
      is_red l ≡ true
      → Settled c
          (some (node c (painted black l) f (node black r e n)))
          (black_height (node c sib e sib))
          (inorder sib ++ (e ∷ inorder n))
  unfolding black_height inorder
  one_right q = record {
    root = node c (painted black l) f (node black r e n);
    made = refl;
    level = (
      (IsRb-painted l ll).0,
      (lr, ln, sym hr ∙ hn, λ z. (not_red _ z, not_red _ z)),
      painted_height l q ∙ ap (λ k. k + 1) hr,
      λ z. (painted_not_red l, refl),
    );
    high = same_height e c (painted black l) f (node black r e n) sib (painted_height l q);
    colored = black_root c _ _ _;
    entries =
        ap (λ xs. xs ++ (f ∷ inorder (node black r e n))) (inorder-painted l)
        ∙ sym (append_assoc (inorder l) (f ∷ inorder r) (e ∷ inorder n));
  }

-- the sibling `s` is not red and one of its children is
module _ (c : Color) (n : RbNode) (e : Entry) (ln : IsLevel n) where
  two_left :
      (g : Color) (a : RbNode) (x : Entry) (b : RbNode) (f : Entry) (r : RbNode)
      → IsLevel r
      → IsLevel (node g a x b)
      → black_height (node g a x b) ≡ black_height r
      → black_height (node g a x b) ≡ black_height n
      → is_red (node g a x b) ≡ true
      → let s = node black (node g a x b) f r in
        Settled c
          (some (node c (node black n e a) x (node black b f r)))
          (black_height (node c s e s))
          (inorder n ++ (e ∷ inorder s))
  unfolding black_height inorder
  two_left black a x b f r lr l h k q = ground arith
  two_left red a x b f r lr (la, lb, hb, f') h k q = record {
    root = node c (node black n e a) x (node black b f r);
    made = refl;
    level = (
      (ln, la, sym k, λ z. (not_red _ z, not_red _ z)),
      (lb, lr, sym hb ∙ h, λ z. (not_red _ z, not_red _ z)),
      ap (λ i. i + 1) (sym k ∙ hb),
      λ z. (refl, refl),
    );
    high =
        same_height e c (node black n e a) x (node black b f r) (node black (node red a x b) f r)
          (ap (λ i. i + 1) (sym k));
    colored = black_root c _ _ _;
    entries = simp (append_assoc);
  }

  two_right :
      (g : Color) (a : RbNode) (x : Entry) (b : RbNode) (l : RbNode) (f : Entry)
      → IsLevel l
      → IsLevel (node g a x b)
      → black_height l ≡ black_height (node g a x b)
      → black_height l ≡ black_height n
      → is_red (node g a x b) ≡ true
      → let s = node black l f (node g a x b) in
        Settled c
          (some (node c (node black l f a) x (node black b e n)))
          (black_height (node c s e s))
          (inorder s ++ (e ∷ inorder n))
  unfolding black_height inorder
  two_right black a x b l f ll lg h k q = ground arith
  two_right red a x b l f ll (la, lb, hb, f') h k q = record {
    root = node c (node black l f a) x (node black b e n);
    made = refl;
    level = (
      (ll, la, h, λ z. (not_red _ z, not_red _ z)),
      (lb, ln, sym hb ∙ sym h ∙ k, λ z. (not_red _ z, not_red _ z)),
      ap (λ i. i + 1) (h ∙ hb),
      λ z. (refl, refl),
    );
    high =
        same_height e c (node black l f a) x (node black b e n) (node black l f (node red a x b))
          refl;
    colored = black_root c _ _ _;
    entries = simp (append_assoc);
  }

  pub settle_left-Settled :
      (l : RbNode) (f : Entry) (r : RbNode)
      → IsLevel (node black l f r)
      → black_height l ≡ black_height n
      → both_black l r ≡ false
      → let s = node black l f r in
        Settled c (settle_left c n e s) (black_height (node c s e s)) (inorder n ++ (e ∷ inorder s))
  unfolding settle_left
  settle_left-Settled leaf f r (ll, lr, hr, q) hn b =
      let hot : is_red r ≡ true = ground arith in
      rw (hot, settle_left) (one_left c n e leaf f r ln ll lr hn hr hot)
  settle_left-Settled (node g a x b') f r (ll, lr, hr, q) hn b = elim (Bool-cases (is_red r)) [
    | inl hot ↦ rw (hot, settle_left) (one_left c n e (node g a x b') f r ln ll lr hn hr hot)
    | inr cold ↦ rw (cold, settle_left) (two_left g a x b' f r lr ll hr hn (ground (arith, cold)))
  ]

  pub settle_right-Settled :
      (l : RbNode) (f : Entry) (r : RbNode)
      → IsLevel (node black l f r)
      → black_height l ≡ black_height n
      → both_black l r ≡ false
      → let s = node black l f r in
        Settled c
          (settle_right c n e s)
          (black_height (node c s e s))
          (inorder s ++ (e ∷ inorder n))
  unfolding settle_right
  settle_right-Settled l f leaf (ll, lr, hr, q) hn b =
      let hot : is_red l ≡ true = ground arith in
      rw (hot, settle_right) (one_right c n e l f leaf ln ll lr hn hr hot)
  settle_right-Settled l f (node g a x b') (ll, lr, hr, q) hn b = elim (Bool-cases (is_red l)) [
    | inl hot ↦ rw (hot, settle_right) (one_right c n e l f (node g a x b') ln ll lr hn hr hot)
    | inr cold ↦ rw (cold, settle_right) (two_right g a x b' l f ll lr hr hn (ground (arith, cold)))
  ]

-- ===== src/RbTree/Descend.antt =====
-- The searches and the descent of the insertions, on the entries in order.
use Prim.Native.Nat.{Ordering}
use libsvr.Common.{
  ℕ, ◌+◌, Bool, ◌≡◌, ◌≢◌, inl, inr, refl, sym, ap, ◌∙◌, arith, false, true, Option, none, some,
  List, [], ◌∷◌, ◌++◌, subst,
}
use libsvr.AvlTree.{Entry}
use libsvr.AvlTree.Orders.{
  Ordering-cases, IsOrder, Sorted, Sorted-left, Sorted-right, list_find, list_insert, find_before,
  find_after, find_at, insert_before, insert_after, insert_at, All-above,
}
use libsvr.RbTree.{
  Color, red, black, RbNode, leaf, node, Parent, left_of, right_of, whole, is_red, Descent, vacant,
  occupied, descend, find_node,
}
use libsvr.RbTree.Level.{black_height, IsLevel, IsWay, UnderBlack, inorder}

module _ {cmp : ℕ → ℕ → Ordering} (o : IsOrder cmp) where
  pub find_node-inorder :
      (key : ℕ) (n : RbNode)
      → Sorted cmp (inorder n)
      → find_node cmp key n ≡ list_find cmp key (inorder n)
  unfolding find_node inorder
  find_node-inorder key leaf s = unfold list_find in refl
  find_node-inorder key (node c l e r) s =
      let in_left = find_node-inorder key l (Sorted-left cmp (inorder l) (e ∷ inorder r) s) in
      let in_right = find_node-inorder key r (Sorted-right cmp (inorder l) (e ∷ inorder r) s).1 in
      let past : cmp key e.key ≢ Ordering.lt
          → list_find cmp key (inorder l ++ (e ∷ inorder r)) ≡ list_find cmp key (e ∷ inorder r) =
        λ p.
          find_after cmp key (inorder l) (e ∷ inorder r)
            (All-above o key (inorder l) e (inorder r) s p) in
      elim (Ordering-cases (cmp key e.key)) [
        | inl below ↦
            rw (below, find_node)
              (in_left ∙ sym (find_before cmp key (inorder l) e (inorder r) below))
        | inr (inl same) ↦
            rw (same, find_node)
              (sym (past (λ p. cc (p, same)) ∙ (find_at cmp key e (inorder r)).0 same))
        | inr (inr above) ↦
            rw (above, find_node)
              (in_right ∙ sym (past (λ p. cc (p, above)) ∙ (find_at cmp key e (inorder r)).1 above))
      ]

-- the entries of the whole tree, from those under the place at work
unfoldable pub around : List Parent → List Entry → List Entry
around [] xs = xs
around (left_of c e r ∷ up) xs = around up (xs ++ (e ∷ inorder r))
around (right_of c l e ∷ up) xs = around up (inorder l ++ (e ∷ xs))

pub inorder-around : (n : RbNode) (up : List Parent) → inorder (whole n up) ≡ around up (inorder n)
unfolding around whole inorder
inorder-around n [] = refl
inorder-around n (left_of c e r ∷ up) = inorder-around (node c n e r) up
inorder-around n (right_of c l e ∷ up) = inorder-around (node c l e n) up

-- What the descent finds: the node with the key, as a search does, or the place where the new entry
-- belongs.
abbrev pub Ends : Entry → Option Entry → List Entry → Descent → Type 0
Ends x found xs (occupied q c l e r) = found ≡ some e
Ends x found xs (vacant q) = (found ≡ none) × IsWay 0 q × (around q (x ∷ []) ≡ xs)

bottom : (up : List Parent) → IsWay (black_height leaf) up → IsWay 0 up
unfolding black_height
bottom up w = w

same_height :
    (c : Color) (l : RbNode) (e : Entry) (r m : RbNode)
    → black_height l ≡ black_height m
    → black_height (node c l e r) ≡ black_height (node c m e m)
unfolding black_height
same_height red l e r m h = h
same_height black l e r m h = ap (λ k. k + 1) h

pub child_black : (c : Color) (b : Bool) → (c ≡ red → b ≡ false) → b ≡ true → c ≡ black
child_black red b f q = ground (arith, f refl)
child_black black b f q = refl

pub red_node :
    (c : Color) (l : RbNode) (e : Entry) (r : RbNode) → c ≡ red → is_red (node c l e r) ≡ true
red_node red l e r q = refl
red_node black l e r q = ground arith

module _ {cmp : ℕ → ℕ → Ordering} (o : IsOrder cmp) (x : Entry) where
  pub descend-Ends :
      (n : RbNode) (up : List Parent)
      → IsLevel n
      → IsWay (black_height n) up
      → (is_red n ≡ true → UnderBlack up)
      → Sorted cmp (inorder n)
      → Ends x
          (find_node cmp x.key n)
          (around up (list_insert cmp x (inorder n)))
          (descend cmp x.key n up)
  unfolding descend find_node inorder around
  descend-Ends leaf up l w u s = (refl, bottom up w, unfold list_insert in refl)
  descend-Ends (node c l e r) up (ll, lr, h, f) w u s = elim (Ordering-cases (cmp x.key e.key)) [
    | inl below ↦
        rw (below, descend, find_node, insert_before cmp x (inorder l) e (inorder r) below)
          (descend-Ends l (left_of c e r ∷ up) ll
            (
              lr,
              sym h,
              λ q. ((f q).1, u (red_node c l e r q)),
              subst (λ k. IsWay k up) (same_height c l e r r h) w,
            )
            (child_black c (is_red l) (λ q. (f q).0))
            (Sorted-left cmp (inorder l) (e ∷ inorder r) s))
    | inr (inl same) ↦ rw (same, descend, find_node) refl
    | inr (inr above) ↦
        rw
          (
            above,
            descend,
            find_node,
            insert_after cmp x (inorder l) (e ∷ inorder r)
                (All-above o x.key (inorder l) e (inorder r) s (λ p. cc (p, above))),
            (insert_at cmp x e (inorder r)).1 above,
          )
          (descend-Ends r (right_of c l e ∷ up) lr
            (
              ll,
              h,
              λ q. ((f q).0, u (red_node c l e r q)),
              subst (λ k. IsWay k up) (same_height c l e r l refl) w,
            )
            (child_black c (is_red r) (λ q. (f q).1))
            (Sorted-right cmp (inorder l) (e ∷ inorder r) s).1)
  ]

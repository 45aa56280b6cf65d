-- ===== src/AvlTree/Shape.antt =====
-- The entries of a tree in order, which no rotation changes.
use libsvr.Common.{◌≡◌, refl, sym, ap, ◌∙◌, arith, List, [], ◌∷◌, ◌++◌}
use libsvr.AvlTree.{
  Entry, Node, leaf, node, linked, rotate_left_child, rotate_right_child, rotate_twice_left,
  rotate_twice_right, balance,
}
use mathlib.Core.List.{append_assoc}

unfoldable pub inorder : Node → List Entry
inorder leaf = []
inorder (node l r h e) = inorder l ++ (e ∷ inorder r)

ruleset regroup = (append_assoc)

inorder-rotate_left :
    (l r : Node) (e : Entry) → inorder (rotate_left_child l r e) ≡ inorder l ++ (e ∷ inorder r)
unfolding inorder rotate_left_child
inorder-rotate_left leaf r e = refl
inorder-rotate_left (node a b h x) r e =
    sym (append_assoc (inorder a) (x ∷ inorder b) (e ∷ inorder r))

inorder-rotate_right :
    (l r : Node) (e : Entry) → inorder (rotate_right_child l r e) ≡ inorder l ++ (e ∷ inorder r)
unfolding inorder rotate_right_child
inorder-rotate_right l leaf e = refl
inorder-rotate_right l (node a b h x) e = append_assoc (inorder l) (e ∷ inorder a) (x ∷ inorder b)

inorder-rotate_twice_left :
    (l r : Node) (e : Entry) → inorder (rotate_twice_left l r e) ≡ inorder l ++ (e ∷ inorder r)
unfolding rotate_twice_left inorder
inorder-rotate_twice_left leaf r e = refl
inorder-rotate_twice_left (node a b h x) r e =
    inorder-rotate_left (rotate_right_child a b x) r e
    ∙ ap (λ xs. xs ++ (e ∷ inorder r)) (inorder-rotate_right a b x)

inorder-rotate_twice_right :
    (l r : Node) (e : Entry) → inorder (rotate_twice_right l r e) ≡ inorder l ++ (e ∷ inorder r)
unfolding rotate_twice_right inorder
inorder-rotate_twice_right l leaf e = refl
inorder-rotate_twice_right l (node a b h x) e =
    inorder-rotate_right l (rotate_left_child a b x) e
    ∙ ap (λ xs. inorder l ++ (e ∷ xs)) (inorder-rotate_left a b x)

-- Whatever rotations `balance` takes, the entries stay in order: those of the left child, that of the
-- node, and those of the right child.
pub inorder-balance :
    (l r : Node) (e : Entry) → inorder (balance l r e) ≡ inorder l ++ (e ∷ inorder r)
unfolding balance
inorder-balance l r e = ground (
  arith,
  inorder-rotate_left l r e,
  inorder-rotate_right l r e,
  inorder-rotate_twice_left l r e,
  inorder-rotate_twice_right l r e,
  inorder-linked,
)
  where
    inorder-linked : inorder (linked l r e) ≡ inorder l ++ (e ∷ inorder r)
    inorder-linked = unfold inorder in refl

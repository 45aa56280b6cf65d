-- ===== src/AvlTree/Lookup.antt =====
-- A search tree and the sorted list of its entries.
use Prim.Native.Nat.{Ordering}
use libsvr.Common.{ℕ, ◌≡◌, inl, inr, refl, sym, ap, ◌∙◌, ◌∷◌, ◌++◌}
use libsvr.AvlTree.{Entry, Node, leaf, node, find, link_node}
use libsvr.AvlTree.Shape.{inorder, inorder-balance}
use libsvr.AvlTree.Orders.{
  Ordering-cases, IsOrder, Sorted, list_find, list_insert, All-above, find_before, find_after,
  insert_before, insert_after, find_at, insert_at, Sorted-left, Sorted-right,
}

module _ {cmp : ℕ → ℕ → Ordering} (o : IsOrder cmp) where
  -- For a comparison that is a total order, the search in a tree that is sorted by key finds what a
  -- search along the list of its entries finds.
  pub find-inorder :
      (key : ℕ) (t : Node) → Sorted cmp (inorder t) → find cmp key t ≡ list_find cmp key (inorder t)
  unfolding find inorder
  find-inorder key leaf s = unfold list_find in refl
  find-inorder key (node l r h e) s =
      let in_left = find-inorder key l (Sorted-left cmp (inorder l) (e ∷ inorder r) s) in
      let in_right = find-inorder key r (Sorted-right cmp (inorder l) (e ∷ inorder r) s).1 in
      elim (Ordering-cases (cmp key e.key)) [
        | inl below ↦
            rw (below, find) (in_left ∙ sym (find_before cmp key (inorder l) e (inorder r) below))
        | inr (inl same) ↦
            rw (same, find)
              (sym (
                find_after cmp key (inorder l) (e ∷ inorder r)
                  (All-above o key (inorder l) e (inorder r) s (λ p. cc (p, same)))
                ∙ (find_at cmp key e (inorder r)).0 same))
        | inr (inr above) ↦
            rw (above, find)
              (in_right
                ∙ sym (
                    find_after cmp key (inorder l) (e ∷ inorder r)
                      (All-above o key (inorder l) e (inorder r) s (λ p. cc (p, above)))
                    ∙ (find_at cmp key e (inorder r)).1 above))
      ]

  -- For a comparison that is a total order, the entries in order of a tree that is sorted by key
  -- are, after a node is linked and the tree balanced, those before with the new entry in its place;
  -- an entry whose key is there already is not added.
  pub link_node-inorder :
      (x : Entry) (t : Node)
      → Sorted cmp (inorder t)
      → inorder (link_node cmp x t) ≡ list_insert cmp x (inorder t)
  unfolding link_node inorder
  link_node-inorder x leaf s = unfold list_insert in refl
  link_node-inorder x (node l r h e) s =
      let in_left = link_node-inorder x l (Sorted-left cmp (inorder l) (e ∷ inorder r) s) in
      let in_right = link_node-inorder x r (Sorted-right cmp (inorder l) (e ∷ inorder r) s).1 in
      elim (Ordering-cases (cmp x.key e.key)) [
        | inl below ↦
            rw (below, link_node)
              (inorder-balance (link_node cmp x l) r e
                ∙ ap (λ xs. xs ++ (e ∷ inorder r)) in_left
                ∙ sym (insert_before cmp x (inorder l) e (inorder r) below))
        | inr (inl same) ↦
            rw (same, link_node)
              (sym (
                insert_after cmp x (inorder l) (e ∷ inorder r)
                  (All-above o x.key (inorder l) e (inorder r) s (λ p. cc (p, same)))
                ∙ ap (λ xs. inorder l ++ xs) ((insert_at cmp x e (inorder r)).0 same)))
        | inr (inr above) ↦
            rw (above, link_node)
              (inorder-balance l (link_node cmp x r) e
                ∙ ap (λ xs. inorder l ++ (e ∷ xs)) in_right
                ∙ sym (
                    insert_after cmp x (inorder l) (e ∷ inorder r)
                      (All-above o x.key (inorder l) e (inorder r) s (λ p. cc (p, above)))
                    ∙ ap (λ xs. inorder l ++ xs) ((insert_at cmp x e (inorder r)).1 above)))
      ]

-- ===== src/AvlTree/Erase/Order.antt =====
-- Erasing a node takes one entry out of the order and leaves the others as they stand.
use Prim.Native.Nat.{Ordering}
use libsvr.Common.{
  ℕ, ◌≡◌, refl, sym, ap, subst, ◌∙◌, arith, inl, inr, Option, none, some, List, ◌∷◌, ◌++◌,
}
use libsvr.AvlTree.{Entry, Node, leaf, node, find, balance}
use libsvr.AvlTree.Erase.{splice_out, take_first, erase_here, erase_node}
use libsvr.AvlTree.Orders.{Ordering-cases}
use libsvr.AvlTree.Shape.{inorder, inorder-balance}
use mathlib.Core.List.{append_assoc, append-nil}

-- `rest` is `whole` without one place, at which `e` stands.
pub record Without (e : Entry) (whole rest : List Entry) : Type 0 where
  pub front : List Entry
  pub back : List Entry
  pub with : whole ≡ front ++ (e ∷ back)
  pub without : rest ≡ front ++ back

inorder-splice_out : (l r : Node) → (l ≡ leaf) → inorder (splice_out l r) ≡ inorder l ++ inorder r
unfolding splice_out inorder
inorder-splice_out l leaf n = sym (append-nil (inorder l))
inorder-splice_out l (node a b h x) n = ap (λ l. inorder l ++ inorder (node a b h x)) (sym n)

Takes : Node → Option (Entry × Node) → Type 0
Takes t none = t ≡ leaf
Takes t (some taken) = inorder t ≡ taken.0 ∷ inorder taken.1

take_first-Takes : (t : Node) → Takes t (take_first t)
unfolding take_first Takes
take_first-Takes leaf = refl
take_first-Takes (node l r h e) = from (take_first l) (take_first-Takes l)
  where
    from :
        (o : Option (Entry × Node))
        → Takes l o
        → Takes (node l r h e) (elim o as (λ o. Option (Entry × Node)) [
          | none ↦ some (e, splice_out leaf r)
          | some taken ↦ some (taken.0, balance taken.1 r e)
        ])
    from none s =
        unfold inorder in
        ap (λ l. inorder l ++ (e ∷ inorder r)) s
        ∙ ap (λ xs. e ∷ xs) (sym (inorder-splice_out leaf r refl))
    from (some taken) s =
        unfold inorder in
        ap (λ xs. xs ++ (e ∷ inorder r)) s
        ∙ ap (λ xs. taken.0 ∷ xs) (sym (inorder-balance taken.1 r e))

inorder-erase_here : (l r : Node) → inorder (erase_here l r) ≡ inorder l ++ inorder r
unfolding erase_here Takes
inorder-erase_here leaf r = inorder-splice_out leaf r refl
inorder-erase_here (node a b k x) r = from (take_first r) (take_first-Takes r)
  where
    from :
        (o : Option (Entry × Node))
        → Takes r o
        → inorder (elim o as (λ o. Node) [
          | none ↦ splice_out (node a b k x) r
          | some taken ↦ balance (node a b k x) taken.1 taken.0
        ])
          ≡ inorder (node a b k x) ++ inorder r
    from none s =
        subst (λ r. inorder (splice_out (node a b k x) r) ≡ inorder (node a b k x) ++ inorder r)
          (sym s) (unfold splice_out inorder in sym (append-nil (inorder (node a b k x))))
    from (some taken) s =
        inorder-balance (node a b k x) taken.1 taken.0
        ∙ ap (λ xs. inorder (node a b k x) ++ xs) (sym s)

module _ (cmp : ℕ → ℕ → Ordering) (key : ℕ) where
  -- If a search finds the entry `e`, the entries in order after the node at that key is erased are
  -- those before without one place, at which `e` stands.
  pub erase_node-Without :
      (e : Entry) (t : Node)
      → find cmp key t ≡ some e
      → Without e (inorder t) (inorder (erase_node cmp key t))
  unfolding find erase_node inorder
  erase_node-Without e leaf n = absurd (ground arith)
  erase_node-Without e (node l r h x) n = elim (Ordering-cases (cmp key x.key)) [
    | inl below ↦
        let inner = erase_node-Without e l (rw (below, find) at n) in
        rw (below, erase_node)
          (record {
            front = inner.front;
            back = inner.back ++ (x ∷ inorder r);
            with =
                ap (λ xs. xs ++ (x ∷ inorder r)) inner.with
                ∙ append_assoc inner.front (e ∷ inner.back) (x ∷ inorder r);
            without =
                inorder-balance (erase_node cmp key l) r x
                ∙ ap (λ xs. xs ++ (x ∷ inorder r)) inner.without
                ∙ append_assoc inner.front inner.back (x ∷ inorder r);
          })
    | inr (inl same) ↦
        let found : some x ≡ some e = (rw (same, find) at n) in
        let here : x ≡ e = cc found in
        rw (same, erase_node)
          (record {
            front = inorder l;
            back = inorder r;
            with = ap (λ y. inorder l ++ (y ∷ inorder r)) here;
            without = inorder-erase_here l r;
          })
    | inr (inr above) ↦
        let inner = erase_node-Without e r (rw (above, find) at n) in
        rw (above, erase_node)
          (record {
            front = inorder l ++ (x ∷ inner.front);
            back = inner.back;
            with =
                ap (λ xs. inorder l ++ (x ∷ xs)) inner.with
                ∙ sym (append_assoc (inorder l) (x ∷ inner.front) (e ∷ inner.back));
            without =
                inorder-balance l (erase_node cmp key r) x
                ∙ ap (λ xs. inorder l ++ (x ∷ xs)) inner.without
                ∙ sym (append_assoc (inorder l) (x ∷ inner.front) inner.back);
          })
  ]

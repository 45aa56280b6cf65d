-- ===== src/AvlTree/Erase/Inv.antt =====
-- Erasing a node keeps the invariant of the tree, and the searches for other keys.
use Prim.Native.Nat.{Ordering}
use libsvr.Common.{
  ℕ, ◌+◌, ◌≡◌, ◌≢◌, refl, sym, ap, subst, ◌∙◌, arith, none, some, List, [], ◌∷◌, ◌++◌, map, length,
  All,
}
use libsvr.AvlTree.{Entry, AvlTree, find}
use libsvr.AvlTree.Erase.{unlink, erase_node, avl_tree_erase}
use libsvr.AvlTree.Erase.Balance.{erase_node-IsAvl}
use libsvr.AvlTree.Erase.Order.{erase_node-Without}
use libsvr.AvlTree.Orders.{Ordering-cases, IsOrder, Sorted, list_find, All-middle}
use libsvr.AvlTree.Lookup.{find-inorder}
use libsvr.AvlTree.Chain.{addrs, NotIn, Distinct, Distinct-front}
use libsvr.AvlTree.Inv.{IsWhole}
use mathlib.Core.List.{map-append}

All-drop {ℓ ℓ'} :
    {A : Type ℓ} (P : A → Type ℓ') (x : A) (xs ys : List A)
    → All P (xs ++ (x ∷ ys))
    → All P (xs ++ ys)
All-drop P x [] ys a = a.1
All-drop P x (z ∷ xs) ys (a, more) = (a, All-drop P x xs ys more)

Distinct-drop : (p : ℕ) (xs ys : List ℕ) → Distinct (xs ++ (p ∷ ys)) → Distinct (xs ++ ys)
Distinct-drop p [] ys d = d.1
Distinct-drop p (x ∷ xs) ys (n, d) = (All-drop (λ a. a ≢ x) p xs ys n, Distinct-drop p xs ys d)

unlink-middle : (p : ℕ) (xs ys : List ℕ) → NotIn p xs → unlink p (xs ++ (p ∷ ys)) ≡ xs ++ ys
unfolding unlink
unlink-middle p [] ys n = ground arith
unlink-middle p (x ∷ xs) ys (n, more) = ground (arith, unlink-middle p xs ys more)

pub length-middle :
    (e : Entry) (xs ys : List Entry) → length (xs ++ (e ∷ ys)) ≡ length (xs ++ ys) + 1
length-middle e [] ys = omega arith
length-middle e (x ∷ xs) ys = omega (arith, length-middle e xs ys)

module _ {cmp : ℕ → ℕ → Ordering} (o : IsOrder cmp) where
  pub Sorted-drop :
      (e : Entry) (xs ys : List Entry) → Sorted cmp (xs ++ (e ∷ ys)) → Sorted cmp (xs ++ ys)
  Sorted-drop e [] ys s = s.1
  Sorted-drop e (x ∷ xs) ys (a, s) =
      (All-drop (λ y. cmp x.key y.key ≡ Ordering.lt) e xs ys a, Sorted-drop e xs ys s)

  find_below :
      (k : ℕ) (e : Entry) (ys : List Entry)
      → All (λ y. cmp e.key y.key ≡ Ordering.lt) ys
      → cmp k e.key ≢ Ordering.gt
      → list_find cmp k ys ≡ none
  unfolding list_find
  find_below k e [] a n = refl
  find_below k e (y ∷ ys) (a, more) n =
      ground (arith, Ordering-cases (cmp k e.key), o.trans k e.key y.key, o.alike k e.key y.key)

  pub find_without :
      (k : ℕ) (e : Entry) (xs ys : List Entry)
      → Sorted cmp (xs ++ (e ∷ ys))
      → list_find cmp k (xs ++ ys)
        ≡ elim (cmp k e.key) [ Ordering.eq ↦ none | _ ↦ list_find cmp k (xs ++ (e ∷ ys)) ]
  unfolding list_find
  find_without k e [] ys (a, s) = ground (arith, find_below k e ys a)
  find_without k e (x ∷ xs) ys (a, s) =
      let low = All-middle o x xs e ys a in
      ground (arith, find_without k e xs ys s, o.alike k x.key e.key)

  -- For a comparison that is a total order, a tree that satisfies the invariant and the entry that
  -- a search finds by its key: erasing its node leaves a tree that satisfies the invariant, in which
  -- no key that compares as equal is found any more, and every other finds what it found before.
  pub avl_tree_erase_lem :
      (t : AvlTree) (e : Entry)
      → IsWhole cmp t
      → find cmp e.key t.root ≡ some e
      → IsWhole cmp (avl_tree_erase cmp t (some e))
        × ((k : ℕ)
            → find cmp k (avl_tree_erase cmp t (some e)).root
              ≡ elim (cmp k e.key) [ Ordering.eq ↦ none | _ ↦ find cmp k t.root ])
  unfolding avl_tree_erase
  avl_tree_erase_lem t e w n =
      let cut = erase_node-Without cmp e.key e t.root n in
      let fs = map (λ e. e.addr) cut.front in
      let bs = map (λ e. e.addr) cut.back in
      let before : addrs t.root ≡ fs ++ (e.addr ∷ bs) =
        ap (map (λ e. e.addr)) cut.with ∙ map-append (λ e. e.addr) cut.front (e ∷ cut.back) in
      let after : addrs (erase_node cmp e.key t.root) ≡ fs ++ bs =
        ap (map (λ e. e.addr)) cut.without ∙ map-append (λ e. e.addr) cut.front cut.back in
      let apart = subst Distinct before w.apart in
      let sorted = subst (Sorted cmp) cut.with w.sorted in
      let sorted' =
        subst (Sorted cmp) (sym cut.without) (Sorted-drop e cut.front cut.back sorted) in
      (
        record {
          avl = (erase_node-IsAvl cmp e.key t.root w.avl).0;
          sorted = sorted';
          apart = subst Distinct (sym after) (Distinct-drop e.addr fs bs apart);
          links =
              ap (unlink e.addr) (w.links ∙ before)
              ∙ unlink-middle e.addr fs bs (Distinct-front fs e.addr bs apart)
              ∙ sym after;
          sized =
              let whole = ap length cut.with ∙ length-middle e cut.front cut.back in
              let rest = ap length cut.without in let counted = w.sized in omega arith;
        },
        λ k.
            find-inorder o k (erase_node cmp e.key t.root) sorted'
            ∙ ap (list_find cmp k) cut.without
            ∙ find_without k e cut.front cut.back sorted
            ∙ ap (λ r. elim (cmp k e.key) [ Ordering.eq ↦ none | _ ↦ r ])
                (ap (list_find cmp k) (sym cut.with) ∙ sym (find-inorder o k t.root w.sorted)),
      )

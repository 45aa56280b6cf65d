-- ===== src/RbTree/Erase/Inv.antt =====
-- `rb_tree_erase` keeps the invariant, and the searches for other keys.
use Prim.Native.Nat.{Ordering}
use mathlib.Core.List.{append_assoc}
use libsvr.Common.{
  ℕ, ◌-◌, ◌≡◌, refl, sym, ap, ◌∙◌, arith, true, Option, none, some, List, [], ◌∷◌, ◌++◌, subst, inl,
  inr, length,
}
use mathlib.Core.Option.{some-injective}
use libsvr.AvlTree.{Entry}
use libsvr.AvlTree.Orders.{Ordering-cases, IsOrder, Sorted, list_find, list_insert}
use libsvr.AvlTree.Erase.Order.{Without}
use libsvr.AvlTree.Erase.Inv.{Sorted-drop, find_without, length-middle}
use libsvr.RbTree.{
  RbNode, leaf, node, Parent, left_of, right_of, is_red, Descent, vacant, occupied, descend,
  find_node, RbTree,
}
use libsvr.RbTree.Level.{black_height, IsLevel, UnderBlack, IsWay, inorder, Balanced}
use libsvr.RbTree.Descend.{around, child_black, red_node, find_node-inorder, Ends, descend-Ends}
use libsvr.RbTree.Inv.{IsWhole}
use libsvr.RbTree.Erase.{erase_at, rb_tree_erase}
use libsvr.RbTree.Erase.Settle.{same_height}
use libsvr.RbTree.Erase.Unlink.{Under, erase_at-Balanced}

-- the node at which a descent ends stands in the tree
abbrev Stands : List Entry → Descent → Type 0
Stands xs (vacant q) = Unit
Stands xs (occupied q c l e r) =
    IsLevel (node c l e r)
    × IsWay (black_height (node c l e r)) q
    × Under c q
    × (around q (inorder l ++ (e ∷ inorder r)) ≡ xs)

descend-Stands :
    (cmp : ℕ → ℕ → Ordering) (key : ℕ) (n : RbNode) (up : List Parent)
    → IsLevel n
    → IsWay (black_height n) up
    → (is_red n ≡ true → UnderBlack up)
    → Stands (around up (inorder n)) (descend cmp key n up)
unfolding descend around inorder
descend-Stands cmp key leaf up l w u = tt
descend-Stands cmp key (node c l e r) up (ll, lr, h, f) w u =
    elim (Ordering-cases (cmp key e.key)) [
      | inl below ↦
          rw (below, descend)
            (descend-Stands cmp key l (left_of c e r ∷ up) ll
              (
                lr,
                sym h,
                λ q. ((f q).1, u (red_node c l e r q)),
                subst (λ k. IsWay k up) (same_height e c l e r r h) w,
              )
              (child_black c (is_red l) (λ q. (f q).0)))
      | inr (inl same) ↦ rw (same, descend) ((ll, lr, h, f), w, (λ q. u (red_node c l e r q)), refl)
      | inr (inr above) ↦
          rw (above, descend)
            (descend-Stands cmp key r (right_of c l e ∷ up) lr
              (
                ll,
                h,
                λ q. ((f q).0, u (red_node c l e r q)),
                subst (λ k. IsWay k up) (same_height e c l e r l refl) w,
              )
              (child_black c (is_red r) (λ q. (f q).1)))
    ]

Without-around :
    (e : Entry) (up : List Parent) (xs ys : List Entry)
    → Without e xs ys
    → Without e (around up xs) (around up ys)
unfolding around
Without-around e [] xs ys w = w
Without-around e (left_of c f r ∷ up) xs ys w =
    Without-around e up (xs ++ (f ∷ inorder r)) (ys ++ (f ∷ inorder r)) (record {
      front = w.front;
      back = w.back ++ (f ∷ inorder r);
      with =
          ap (λ zs. zs ++ (f ∷ inorder r)) w.with
          ∙ append_assoc w.front (e ∷ w.back) (f ∷ inorder r);
      without =
          ap (λ zs. zs ++ (f ∷ inorder r)) w.without ∙ append_assoc w.front w.back (f ∷ inorder r);
    })
Without-around e (right_of c l f ∷ up) xs ys w =
    Without-around e up (inorder l ++ (f ∷ xs)) (inorder l ++ (f ∷ ys)) (record {
      front = inorder l ++ (f ∷ w.front);
      back = w.back;
      with =
          ap (λ zs. inorder l ++ (f ∷ zs)) w.with
          ∙ sym (append_assoc (inorder l) (f ∷ w.front) (e ∷ w.back));
      without =
          ap (λ zs. inorder l ++ (f ∷ zs)) w.without
          ∙ sym (append_assoc (inorder l) (f ∷ w.front) w.back);
    })

-- An erasing that ends with a tree that satisfies the invariant, in which the key is found no more.
pub record Erased (cmp : ℕ → ℕ → Ordering) (t : RbTree) (x : Entry) (result : Option RbTree)
    : Type 0 where
  pub tree : RbTree
  pub returns : result ≡ some tree
  pub valid : IsWhole cmp tree
  pub finds :
      (k : ℕ)
      → find_node cmp k tree.root
        ≡ elim (cmp k x.key) [ Ordering.eq ↦ none | _ ↦ find_node cmp k t.root ]

module _ {cmp : ℕ → ℕ → Ordering} (o : IsOrder cmp) (t : RbTree) (x : Entry)
    (w : IsWhole cmp t) where
  cut-Erased :
      (r : Option RbNode) (rest : List Entry)
      → Without x (inorder t.root) rest
      → Balanced r rest
      → Erased cmp t x
          (elim r [ none ↦ none | some n ↦ some (record t { root = n; size = t.size - 1 }) ])
  cut-Erased r rest cut b =
      let sorted = subst (Sorted cmp) cut.with w.sorted in
      let after = b.entries ∙ cut.without in
      let sorted' = subst (Sorted cmp) (sym after) (Sorted-drop o x cut.front cut.back sorted) in
      record {
        tree = record t { root = b.root; size = t.size - 1 };
        returns = rw b.made refl;
        valid = record {
          rb = b.rb;
          sorted = sorted';
          sized =
              let whole = ap length cut.with ∙ length-middle x cut.front cut.back in
              let rest = ap length after in let counted = w.sized in omega arith;
        };
        finds = λ k.
            find_node-inorder o k b.root sorted'
            ∙ ap (list_find cmp k) after
            ∙ find_without o k x cut.front cut.back sorted
            ∙ ap (λ r. elim (cmp k x.key) [ Ordering.eq ↦ none | _ ↦ r ])
                (ap (list_find cmp k) (sym cut.with) ∙ sym (find_node-inorder o k t.root w.sorted));
      }

  ended-Erased :
      (p : Descent)
      → Ends x (some x) (list_insert cmp x (inorder t.root)) p
      → Stands (inorder t.root) p
      → Erased cmp t x (elim p [
        | vacant up ↦ none
        | occupied up c l e r ↦ elim (erase_at up c l e r) [
          | none ↦ none
          | some n ↦ some (record t { root = n; size = t.size - 1 })
        ]
      ])
  ended-Erased (vacant up) (n, way, more) s = absurd (ground arith)
  ended-Erased (occupied up c l e r) same (level, way, under, s) =
      cut-Erased (erase_at up c l e r) (around up (inorder l ++ inorder r))
        (subst (λ xs. Without x xs (around up (inorder l ++ inorder r))) s
          (Without-around x up (inorder l ++ (e ∷ inorder r)) (inorder l ++ inorder r) (record {
            front = inorder l;
            back = inorder r;
            with = ap (λ y. inorder l ++ (y ∷ inorder r)) (sym (some-injective x e same));
            without = refl;
          })))
        (erase_at-Balanced up c l e r level way under)

  -- For a comparison that is a total order, a tree that satisfies the invariant and the entry that a
  -- search finds by its key: erasing its node never follows a null pointer, and leaves a tree that
  -- satisfies the invariant, in which no key that compares as equal is found any more, and every other
  -- finds what it found before.
  pub rb_tree_erase_safe :
      find_node cmp x.key t.root ≡ some x → Erased cmp t x (rb_tree_erase cmp t x)
  unfolding rb_tree_erase around
  rb_tree_erase_safe n =
      let under : is_red t.root ≡ true → UnderBlack [] = λ q. ground (arith, w.rb.1) in
      ended-Erased (descend cmp x.key t.root [])
        (subst (λ r. Ends x r (list_insert cmp x (inorder t.root)) (descend cmp x.key t.root [])) n
          (descend-Ends o x t.root [] w.rb.0 tt under w.sorted))
        (descend-Stands cmp x.key t.root [] w.rb.0 tt under)

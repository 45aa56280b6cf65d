-- ===== src/RbTree/Inv.antt =====
-- The invariant of a red-black tree, and what the insertions do to it.
use Prim.Native.Nat.{Ordering}
use libsvr.Common.{
  ℕ, ◌+◌, ◌≡◌, refl, sym, ap, ◌∙◌, arith, Bool, false, true, Option, none, some, List, [], ◌∷◌,
  subst, length,
}
use libsvr.AvlTree.{Entry}
use libsvr.AvlTree.Orders.{
  IsOrder, Sorted, list_find, list_insert, list_insert-Sorted, list_find-insert,
}
use libsvr.AvlTree.Inv.{list_insert-length}
use libsvr.RbTree.{
  red, RbNode, leaf, node, Parent, Descent, vacant, occupied, descend, find_node, insert_balance,
  link_red, RbTree, try_insert,
}
use libsvr.RbTree.Level.{IsRb, IsLevel, black_height, IsWay, inorder, Balanced}
use libsvr.RbTree.Insert.{regrow, insert_balance-Balanced}
use libsvr.RbTree.Descend.{find_node-inorder, around, inorder-around, Ends, descend-Ends}

-- The tree is a red-black tree, sorted by key, and `size` counts the nodes.
pub record IsWhole (cmp : ℕ → ℕ → Ordering) (t : RbTree) : Type 0 where
  pub rb : IsRb t.root
  pub sorted : Sorted cmp (inorder t.root)
  pub sized : t.size ≡ length (inorder t.root)

-- The result of an insertion that does not overwrite, by what a search had found before: the tree
-- as it was and the node that is there, or the new node `x`, which a search then finds by its key.
abbrev pub Answers : (ℕ → ℕ → Ordering) → RbTree → Entry → Option Entry → Bool → RbTree → ℕ → Type 0
Answers cmp t x (some e) ok t' a = (ok ≡ false) × (a ≡ e.addr) × (t' ≡ t)
Answers cmp t x none ok t' a =
    (ok ≡ true)
    × (a ≡ x.addr)
    × ((k : ℕ)
        → find_node cmp k t'.root
          ≡ elim (cmp k x.key) [ Ordering.eq ↦ some x | _ ↦ find_node cmp k t.root ])

-- An insertion that ends with a tree that satisfies the invariant.
pub record Inserted (cmp : ℕ → ℕ → Ordering) (t : RbTree) (x : Entry)
    (result : Option (Bool × RbTree × ℕ)) : Type 0 where
  pub ok : Bool
  pub tree : RbTree
  pub address : ℕ
  pub returns : result ≡ some (ok, tree, address)
  pub valid : IsWhole cmp tree
  pub answers : Answers cmp t x (find_node cmp x.key t.root) ok tree address

leaf-IsLevel : (x : Entry) → IsLevel (node red leaf x leaf)
unfolding black_height
leaf-IsLevel x = (tt, tt, refl, λ q. (refl, refl))

module _ {cmp : ℕ → ℕ → Ordering} (o : IsOrder cmp) (t : RbTree) (x : Entry) where
  -- the tree with the new node, whose entries in order are those before with the new one
  new_tree : (n : RbNode) → RbTree
  new_tree n = record t { root = n; size = t.size + 1 }

  new_tree-IsWhole :
      (n : RbNode)
      → IsWhole cmp t
      → find_node cmp x.key t.root ≡ none
      → IsRb n
      → inorder n ≡ list_insert cmp x (inorder t.root)
      → IsWhole cmp (new_tree n)
  unfolding new_tree
  new_tree-IsWhole n w missing rb e = record {
    rb = rb;
    sorted = subst (Sorted cmp) (sym e) (list_insert-Sorted o x (inorder t.root) w.sorted);
    sized =
        ap (λ k. k + 1) w.sized
        ∙ sym (
            ap length e
            ∙ list_insert-length cmp x (inorder t.root)
                (sym (find_node-inorder o x.key t.root w.sorted) ∙ missing));
  }

  find_node-new_tree :
      (n : RbNode) (k : ℕ)
      → IsWhole cmp t
      → find_node cmp x.key t.root ≡ none
      → inorder n ≡ list_insert cmp x (inorder t.root)
      → find_node cmp k n ≡ elim (cmp k x.key) [ Ordering.eq ↦ some x | _ ↦ find_node cmp k t.root ]
  find_node-new_tree n k w missing e =
      find_node-inorder o k n
        (subst (Sorted cmp) (sym e) (list_insert-Sorted o x (inorder t.root) w.sorted))
      ∙ ap (list_find cmp k) e
      ∙ list_find-insert o k x (inorder t.root)
          (sym (find_node-inorder o x.key t.root w.sorted) ∙ missing)
      ∙ ap (λ f. elim (cmp k x.key) [ Ordering.eq ↦ some x | _ ↦ f ])
          (sym (find_node-inorder o k t.root w.sorted))

  -- the new red node, at the place where the descent ended
  place_new :
      (up : List Parent)
      → IsWay 0 up
      → around up (x ∷ []) ≡ list_insert cmp x (inorder t.root)
      → Balanced (insert_balance (node red leaf x leaf) up) (list_insert cmp x (inorder t.root))
  unfolding inorder list_insert black_height
  place_new up w e =
      regrow (inorder-around (node red leaf x leaf) up ∙ e)
        (insert_balance-Balanced leaf x leaf up (leaf-IsLevel x) w)

  module _ (w : IsWhole cmp t) where
    linked-Inserted :
        (r : Option RbNode)
        → find_node cmp x.key t.root ≡ none
        → Balanced r (list_insert cmp x (inorder t.root))
        → Inserted cmp t x
            (elim (elim r as (λ r. Option RbTree) [ none ↦ none | some n ↦ some (new_tree n) ]) [
              | none ↦ none
              | some t' ↦ some (true, t', x.addr)
            ])
    unfolding new_tree
    linked-Inserted r missing b = record {
      ok = true;
      tree = new_tree b.root;
      address = x.addr;
      returns = rw b.made refl;
      valid = new_tree-IsWhole b.root w missing b.rb b.entries;
      answers = rw missing (refl, refl, λ k. find_node-new_tree b.root k w missing b.entries);
    }

    ended-Inserted :
        (p : Descent)
        → Ends x (find_node cmp x.key t.root) (list_insert cmp x (inorder t.root)) p
        → Inserted cmp t x (elim p [
          | occupied up c l e r ↦ some (false, t, e.addr)
          | vacant up ↦ elim (link_red up t x) [ none ↦ none | some t' ↦ some (true, t', x.addr) ]
        ])
    unfolding link_red new_tree
    ended-Inserted (occupied up c l e r) found = record {
      ok = false;
      tree = t;
      address = e.addr;
      returns = refl;
      valid = w;
      answers = rw found (refl, refl, refl);
    }
    ended-Inserted (vacant up) (missing, way, e) =
        linked-Inserted (insert_balance (node red leaf x leaf) up) missing (place_new up way e)

module _ {cmp : ℕ → ℕ → Ordering} (o : IsOrder cmp) (t : RbTree) (fresh key value : ℕ) where
  -- For a comparison that is a total order and a tree that satisfies the invariant, the insertion that
  -- does not overwrite never follows a null pointer, and gives a tree that satisfies the invariant. If
  -- a search finds a node at the key, the result is false, the address of that node and the tree as it
  -- was. If not, it is true and `fresh`, and from then on a search finds the new node by every key that
  -- compares as equal to its key, and by others what it found before.
  pub try_insert_safe :
      IsWhole cmp t
      → Inserted cmp t
          (record { addr = fresh; key = key; value = value })
          (try_insert cmp t fresh key value)
  unfolding try_insert around
  try_insert_safe w =
      let new : Entry = record { addr = fresh; key = key; value = value } in
      ended-Inserted o t new w (descend cmp key t.root [])
        (descend-Ends o new t.root [] w.rb.0 tt (λ q. ground (arith, w.rb.1)) w.sorted)

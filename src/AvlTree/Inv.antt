-- ===== src/AvlTree/Inv.antt =====
-- The invariant of an AVL tree, and what the insertion of a new key does to it.
use Prim.Native.Nat.{Ordering}
use libsvr.Common.{
  ℕ, ◌+◌, ◌≡◌, ◌≢◌, ◌⊎◌, inl, inr, refl, sym, ap, subst, ◌∙◌, arith, Bool, true, false, Option,
  none, some, List, [], ◌∷◌, map, length,
}
use libsvr.AvlTree.{
  Entry, Node, leaf, node, AvlTree, Spot, occupied, left_of, right_of, empty_root, spot, find,
  link_node, link_chain, link, try_insert_by,
}
use libsvr.AvlTree.Shape.{inorder}
use libsvr.AvlTree.Balance.{IsAvl}
use libsvr.AvlTree.Insert.{link_node-IsAvl}
use libsvr.AvlTree.Orders.{
  Ordering-cases, IsOrder, Sorted, list_find, list_insert, list_insert-Sorted, list_find-insert,
}
use libsvr.AvlTree.Lookup.{find-inorder, link_node-inorder}
use libsvr.AvlTree.Chain.{addrs, NotIn, Distinct, link_chain-addrs}

-- The tree is an AVL tree, sorted by key. Its nodes have addresses of their own, the links
-- between neighbours follow the order, and `size` counts the nodes.
pub record IsWhole (cmp : ℕ → ℕ → Ordering) (t : AvlTree) : Type 0 where
  pub avl : IsAvl t.root
  pub sorted : Sorted cmp (inorder t.root)
  pub apart : Distinct (addrs t.root)
  pub links : t.chain ≡ addrs t.root
  pub sized : t.size ≡ length (inorder t.root)

abbrev pub IsFree : Spot → Type 0
IsFree (occupied a) = ⊥
IsFree other = Unit

module _ (cmp : ℕ → ℕ → Ordering) where
  -- the descent of an insertion ends where the search ends
  pub spot-find :
      (key : ℕ) (t : Node) (s : Spot)
      → IsFree s
      → ((e : Entry) × (spot cmp key t s ≡ occupied e.addr) × (find cmp key t ≡ some e))
        ⊎ (IsFree (spot cmp key t s) × (find cmp key t ≡ none))
  unfolding spot find
  spot-find key leaf s free = inr (free, refl)
  spot-find key (node l r h e) s free = elim (Ordering-cases (cmp key e.key)) [
    | inl below ↦ rw (below, spot, find) (spot-find key l (left_of e.addr) tt)
    | inr (inl same) ↦ rw (same, spot, find) (inl (e, refl, refl))
    | inr (inr above) ↦ rw (above, spot, find) (spot-find key r (right_of e.addr) tt)
  ]

  pub list_insert-length :
      (x : Entry) (ys : List Entry)
      → list_find cmp x.key ys ≡ none
      → length (list_insert cmp x ys) ≡ length ys + 1
  unfolding list_find list_insert
  list_insert-length x [] n = refl
  list_insert-length x (y ∷ ys) n = ground (arith, list_insert-length x ys)

  list_insert-NotIn :
      (a : ℕ) (x : Entry) (ys : List Entry)
      → x.addr ≢ a
      → NotIn a (map (λ e. e.addr) ys)
      → NotIn a (map (λ e. e.addr) (list_insert cmp x ys))
  unfolding list_insert
  list_insert-NotIn a x [] n h = (n, tt)
  list_insert-NotIn a x (y ∷ ys) n (h, more) = elim (Ordering-cases (cmp x.key y.key)) [
    | inl below ↦ rw (below, list_insert) (n, (h, more))
    | inr (inl same) ↦ rw (same, list_insert) (h, more)
    | inr (inr above) ↦ rw (above, list_insert) (h, list_insert-NotIn a x ys n more)
  ]

  list_insert-Distinct :
      (x : Entry) (ys : List Entry)
      → NotIn x.addr (map (λ e. e.addr) ys)
      → Distinct (map (λ e. e.addr) ys)
      → Distinct (map (λ e. e.addr) (list_insert cmp x ys))
  unfolding list_insert
  list_insert-Distinct x [] n d = (tt, tt)
  list_insert-Distinct x (y ∷ ys) (n, ns) (h, d) = elim (Ordering-cases (cmp x.key y.key)) [
    | inl below ↦ rw (below, list_insert) ((n, ns), (h, d))
    | inr (inl same) ↦ rw (same, list_insert) (h, d)
    | inr (inr above) ↦
        rw (above, list_insert)
          (list_insert-NotIn y.addr x ys (λ e. n (sym e)) h, list_insert-Distinct x ys ns d)
  ]

  try_insert-taken :
      (t : AvlTree) (fresh key value a : ℕ)
      → spot cmp key t.root empty_root ≡ occupied a
      → try_insert_by cmp t fresh key value ≡ (false, t, a)
  unfolding try_insert_by
  try_insert-taken t fresh key value a e = rw (e, try_insert_by) refl

  try_insert-free :
      (t : AvlTree) (fresh key value : ℕ)
      → IsFree (spot cmp key t.root empty_root)
      → try_insert_by cmp t fresh key value ≡ (
        true,
        link cmp
            (spot cmp key t.root empty_root)
            t
            (record { addr = fresh; key = key; value = value }),
        fresh,
      )
  unfolding try_insert_by
  try_insert-free t fresh key value free = at (spot cmp key t.root empty_root) free
    where
      at :
          (s : Spot)
          → IsFree s
          → let new = link cmp s t (record { addr = fresh; key = key; value = value }) in
            elim s as (λ s. Bool × AvlTree × ℕ) [
              | occupied a ↦ (false, t, a)
              | left_of p ↦ (
                true,
                link cmp (left_of p) t (record { addr = fresh; key = key; value = value }),
                fresh,
              )
              | right_of p ↦ (
                true,
                link cmp (right_of p) t (record { addr = fresh; key = key; value = value }),
                fresh,
              )
              | empty_root ↦ (
                true,
                link cmp empty_root t (record { addr = fresh; key = key; value = value }),
                fresh,
              )
            ]
            ≡ (true, new, fresh)
      at (occupied a) free = absurd free
      at (left_of p) free = refl
      at (right_of p) free = refl
      at empty_root free = refl

module _ {cmp : ℕ → ℕ → Ordering} (o : IsOrder cmp) (t : AvlTree) (x : Entry) where
  pub link-IsWhole :
      IsWhole cmp t
      → NotIn x.addr (addrs t.root)
      → find cmp x.key t.root ≡ none
      → IsWhole cmp (link cmp (spot cmp x.key t.root empty_root) t x)
  unfolding link
  link-IsWhole w fresh n =
      let inside = link_node-inorder o x t.root w.sorted in
      let missing = sym (find-inorder o x.key t.root w.sorted) ∙ n in
      record {
        avl = (link_node-IsAvl cmp x t.root w.avl).0;
        sorted = subst (Sorted cmp) (sym inside) (list_insert-Sorted o x (inorder t.root) w.sorted);
        apart =
            subst (λ xs. Distinct (map (λ e. e.addr) xs)) (sym inside)
              (list_insert-Distinct cmp x (inorder t.root) fresh w.apart);
        links =
            ap (link_chain (spot cmp x.key t.root empty_root) x.addr) w.links
            ∙ link_chain-addrs cmp x t.root w.apart;
        sized =
            ap (λ n. n + 1) w.sized
            ∙ sym (ap length inside ∙ list_insert-length cmp x (inorder t.root) missing);
      }

  pub find-link_node :
      (k : ℕ)
      → IsWhole cmp t
      → find cmp x.key t.root ≡ none
      → find cmp k (link_node cmp x t.root)
        ≡ elim (cmp k x.key) [ Ordering.eq ↦ some x | _ ↦ find cmp k t.root ]
  find-link_node k w n =
      let inside = link_node-inorder o x t.root w.sorted in
      let missing = sym (find-inorder o x.key t.root w.sorted) ∙ n in
      let sorted =
        subst (Sorted cmp) (sym inside) (list_insert-Sorted o x (inorder t.root) w.sorted) in
      find-inorder o k (link_node cmp x t.root) sorted
      ∙ ap (list_find cmp k) inside
      ∙ list_find-insert o k x (inorder t.root) missing
      ∙ ap (λ f. elim (cmp k x.key) [ Ordering.eq ↦ some x | _ ↦ f ])
          (sym (find-inorder o k t.root w.sorted))

-- what a search for any key finds in `root'`, if `x` came into `root`
abbrev pub FindsAlso : (ℕ → ℕ → Ordering) → Node → Entry → Node → Type 0
FindsAlso cmp root x root' =
    (k : ℕ) → find cmp k root' ≡ elim (cmp k x.key) [ Ordering.eq ↦ some x | _ ↦ find cmp k root ]

-- The result of an insertion that does not overwrite, by what a search had found before: the tree
-- as it was and the node that is there, or the new node `x`.
abbrev pub Answers :
    (ℕ → ℕ → Ordering) → AvlTree → Entry → Option Entry → Bool × AvlTree × ℕ → Type 0
Answers cmp t x (some e) (ok, t', a) = (ok ≡ false) × (a ≡ e.addr) × (t' ≡ t)
Answers cmp t x none (ok, t', a) = (ok ≡ true) × (a ≡ x.addr) × FindsAlso cmp t.root x t'.root

module _ {cmp : ℕ → ℕ → Ordering} (o : IsOrder cmp) (t : AvlTree) (fresh key value : ℕ) where
  -- For a comparison that is a total order, a tree that satisfies the invariant and the address
  -- `fresh` of no node of it: the insertion that does not overwrite gives a tree that satisfies the
  -- invariant. If a search finds a node at the key, the result is false, the address of that node
  -- and the tree as it was. If not, it is true and `fresh`, and from then on a search finds the
  -- new node by every key that compares as equal to its key, and by others what it found before.
  pub try_insert_by_lem :
      IsWhole cmp t
      → NotIn fresh (addrs t.root)
      → let new : Entry = record { addr = fresh; key = key; value = value } in
        let result = try_insert_by cmp t fresh key value in
        IsWhole cmp result.1 × Answers cmp t new (find cmp key t.root) result
  unfolding link
  try_insert_by_lem w n = elim (spot-find cmp key t.root empty_root tt) [
    | inl (e, ended, found) ↦
        rw (try_insert-taken cmp t fresh key value e.addr ended, found) (w, (refl, refl, refl))
    | inr (free, missing) ↦
        let new : Entry = record { addr = fresh; key = key; value = value } in
        rw (try_insert-free cmp t fresh key value free, missing)
          (link-IsWhole o t new w n missing, (refl, refl, λ k. find-link_node o t new k w missing))
  ]

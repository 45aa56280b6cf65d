-- ===== src/AvlTree/Overwrite.antt =====
-- The insertion that overwrites: what a change of an entry in place keeps.
use Prim.Native.Nat.{Ordering}
use libsvr.Common.{
  ℕ, suc, ◌≡◌, inl, inr, refl, sym, ap, subst, ◌∙◌, arith, Option, none, some, List, [], ◌∷◌, ◌++◌,
  map, length,
}
use libsvr.AvlTree.{
  Entry, Node, leaf, node, AvlTree, Spot, occupied, left_of, right_of, empty_root, spot, find, link,
  change_node, insert_by,
}
use libsvr.AvlTree.Shape.{inorder}
use libsvr.AvlTree.Insert.{change_node-IsAvl}
use libsvr.AvlTree.Orders.{Ordering-cases, IsOrder}
use libsvr.AvlTree.Chain.{addrs, addrs-node, NotIn, Distinct}
use libsvr.AvlTree.Alike.{Alike, Alike-self, Alike-append, Sorted-Alike}
use libsvr.AvlTree.Inv.{IsWhole, FindsAlso, IsFree, spot-find, link-IsWhole, find-link_node}

-- A change of an entry in place keeps its address, and a key that compares as equal to `key` it
-- turns into one that stands alike to all others.
pub record Keeps (cmp : ℕ → ℕ → Ordering) (key : ℕ) (f : Entry → Entry) : Type 0 where
  pub address : (e : Entry) → (f e).addr ≡ e.addr
  pub from_left : (e : Entry) (c : ℕ) → cmp key e.key ≡ Ordering.eq → cmp (f e).key c ≡ cmp e.key c
  pub from_right : (e : Entry) (c : ℕ) → cmp key e.key ≡ Ordering.eq → cmp c (f e).key ≡ cmp c e.key

module _ {cmp : ℕ → ℕ → Ordering} {key : ℕ} {f : Entry → Entry} (k : Keeps cmp key f) where
  change_node-Alike : (t : Node) → Alike cmp (inorder t) (inorder (change_node cmp key f t))
  unfolding inorder change_node
  change_node-Alike leaf = tt
  change_node-Alike (node l r h e) =
      let l' = inorder (change_node cmp key f l) in
      let r' = inorder (change_node cmp key f r) in
      let same = Alike-self cmp (inorder l) in
      elim (Ordering-cases (cmp key e.key)) [
        | inl below ↦
            rw (below, change_node)
              (Alike-append cmp (inorder l) l' (e ∷ inorder r) (e ∷ inorder r) (change_node-Alike l)
                (Alike-self cmp (e ∷ inorder r)))
        | inr (inl here) ↦
            rw (here, change_node)
              (Alike-append cmp (inorder l) (inorder l) (e ∷ inorder r) (f e ∷ inorder r) same
                ((λ c. (k.from_left e c here, k.from_right e c here)), Alike-self cmp (inorder r)))
        | inr (inr above) ↦
            rw (above, change_node)
              (Alike-append cmp (inorder l) (inorder l) (e ∷ inorder r) (e ∷ r') same
                ((λ c. (refl, refl)), change_node-Alike r))
      ]

  change_node-addrs : (t : Node) → addrs (change_node cmp key f t) ≡ addrs t
  unfolding change_node
  change_node-addrs leaf = refl
  change_node-addrs (node l r h e) = elim (Ordering-cases (cmp key e.key)) [
    | inl below ↦
        rw (below, change_node)
          (addrs-node (change_node cmp key f l) r h e
            ∙ ap (λ xs. xs ++ (e.addr ∷ addrs r)) (change_node-addrs l)
            ∙ sym (addrs-node l r h e))
    | inr (inl here) ↦
        rw (here, change_node)
          (addrs-node l r h (f e)
            ∙ ap (λ a. addrs l ++ (a ∷ addrs r)) (k.address e)
            ∙ sym (addrs-node l r h e))
    | inr (inr above) ↦
        rw (above, change_node)
          (addrs-node l (change_node cmp key f r) h e
            ∙ ap (λ xs. addrs l ++ (e.addr ∷ xs)) (change_node-addrs r)
            ∙ sym (addrs-node l r h e))
  ]

  find-key : (e : Entry) (t : Node) → find cmp key t ≡ some e → cmp key e.key ≡ Ordering.eq
  unfolding find
  find-key e leaf h = ground arith
  find-key e (node l r n e') h = ground (arith, find-key e l, find-key e r)

  module _ (o : IsOrder cmp) where
    find-change_node :
        (c : ℕ) (e : Entry) (t : Node)
        → find cmp key t ≡ some e
        → find cmp c (change_node cmp key f t)
          ≡ elim (cmp c key) [ Ordering.eq ↦ some (f e) | _ ↦ find cmp c t ]
    unfolding find change_node
    find-change_node c e leaf h = ground arith
    find-change_node c e (node l r n e') h = ground (
      arith,
      find-change_node c e l,
      find-change_node c e r,
      o.alike c key e'.key,
      o.alike_right key e'.key c,
      k.from_right e' c,
    )

  insert-taken :
      (g : ℕ → ℕ → Entry → Entry) (t : AvlTree) (fresh value a : ℕ)
      → spot cmp key t.root empty_root ≡ occupied a
      → insert_by cmp g t fresh key value
        ≡ (record t { root = change_node cmp key (g key value) t.root }, a)
  unfolding insert_by
  insert-taken g t fresh value a e = rw (e, insert_by) refl

length-addrs : (xs : List Entry) → length (map (λ e. e.addr) xs) ≡ length xs
length-addrs [] = refl
length-addrs (x ∷ xs) = ap suc (length-addrs xs)

module _ (cmp : ℕ → ℕ → Ordering) where
  insert-free :
      (g : ℕ → ℕ → Entry → Entry) (t : AvlTree) (fresh key value : ℕ)
      → IsFree (spot cmp key t.root empty_root)
      → insert_by cmp g t fresh key value ≡ (
        link cmp
            (spot cmp key t.root empty_root)
            t
            (record { addr = fresh; key = key; value = value }),
        fresh,
      )
  unfolding insert_by
  insert-free g t fresh key value free = at (spot cmp key t.root empty_root) free
    where
      made : Spot → AvlTree × ℕ
      made s = (link cmp s t (record { addr = fresh; key = key; value = value }), fresh)

      at :
          (s : Spot)
          → IsFree s
          → elim s as (λ s. AvlTree × ℕ) [
            | occupied a ↦ (record t { root = change_node cmp key (g key value) t.root }, a)
            | left_of p ↦ made (left_of p)
            | right_of p ↦ made (right_of p)
            | empty_root ↦ made empty_root
          ]
            ≡ made s
      at (occupied a) free = absurd free
      at (left_of p) free = refl
      at (right_of p) free = refl
      at empty_root free = refl

module _ {cmp : ℕ → ℕ → Ordering} (o : IsOrder cmp) (t : AvlTree) (key : ℕ) where
  change-IsWhole :
      (f : Entry → Entry)
      → Keeps cmp key f
      → IsWhole cmp t
      → IsWhole cmp (record t { root = change_node cmp key f t.root })
  change-IsWhole f k w =
      let same = change_node-addrs k t.root in
      record {
        avl = change_node-IsAvl cmp key f t.root w.avl;
        sorted =
            Sorted-Alike cmp (inorder t.root) (inorder (change_node cmp key f t.root))
              (change_node-Alike k t.root) w.sorted;
        apart = subst Distinct (sym same) w.apart;
        links = w.links ∙ sym same;
        sized =
            w.sized
            ∙ sym (length-addrs (inorder t.root))
            ∙ ap length (sym same)
            ∙ length-addrs (inorder (change_node cmp key f t.root));
      }

-- The result of an insertion that leaves the entry `x` at its key.
abbrev pub Leaves : (ℕ → ℕ → Ordering) → Node → Entry → AvlTree × ℕ → Type 0
Leaves cmp root x (t', a) = (a ≡ x.addr) × FindsAlso cmp root x t'.root

-- The result of an insertion that overwrites by `f`, by what a search had found before.
abbrev pub Overwrites :
    (ℕ → ℕ → Ordering) → Node → (Entry → Entry) → Entry → Option Entry → AvlTree × ℕ → Type 0
Overwrites cmp root f new (some e) result = Leaves cmp root (f e) result
Overwrites cmp root f new none result = Leaves cmp root new result

module _ {cmp : ℕ → ℕ → Ordering} (o : IsOrder cmp) (t : AvlTree) (fresh key value : ℕ) where
  -- For a comparison that is a total order, a tree that satisfies the invariant and the address
  -- `fresh` of no node of it: an insertion that overwrites by an `f` that keeps the address of a
  -- node and the place of its key gives a tree that satisfies the invariant. It returns the address
  -- of the node at the key, the one that was there before or `fresh`, and from then on a search
  -- finds that node, changed by `f` or new, by every key that compares as equal to its key, and by
  -- all others what it found before.
  pub insert_by_lem :
      (f : ℕ → ℕ → Entry → Entry)
      → Keeps cmp key (f key value)
      → IsWhole cmp t
      → NotIn fresh (addrs t.root)
      → let new : Entry = record { addr = fresh; key = key; value = value } in
        let result = insert_by cmp f t fresh key value in
        IsWhole cmp result.0 × Overwrites cmp t.root (f key value) new (find cmp key t.root) result
  unfolding link
  insert_by_lem f keeps w n = elim (spot-find cmp key t.root empty_root tt) [
    | inl (e, ended, found) ↦
        rw (insert-taken keeps f t fresh value e.addr ended, found)
          (
            change-IsWhole o t key (f key value) keeps w,
            (
              sym (keeps.address e),
              λ c.
                  find-change_node keeps o c e t.root found
                  ∙ ap
                      (λ r. elim r as (λ r. Option Entry) [
                        | Ordering.eq ↦ some (f key value e)
                        | _ ↦ find cmp c t.root
                      ])
                      (o.alike_right key e.key c (find-key keeps e t.root found)
                        ∙ sym (keeps.from_right e c (find-key keeps e t.root found))),
            ),
          )
    | inr (free, missing) ↦
        let new : Entry = record { addr = fresh; key = key; value = value } in
        rw (insert-free cmp f t fresh key value free, missing)
          (link-IsWhole o t new w n missing, (refl, λ k. find-link_node o t new k w missing))
  ]

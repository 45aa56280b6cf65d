-- ===== src/AvlTree/Chain.antt =====
-- The links between neighbours follow the order of the tree.
use Prim.Native.Nat.{Ordering}
use libsvr.Common.{
  ℕ, ◌≡◌, ◌≢◌, refl, sym, ap, subst, ◌∙◌, arith, List, [], ◌∷◌, ◌++◌, map, All, inl, inr,
}
use libsvr.AvlTree.{
  Entry, Node, leaf, node, Spot, left_of, right_of, empty_root, spot, link_node, balance,
  link_before, link_behind, link_chain,
}
use libsvr.AvlTree.Shape.{inorder, inorder-balance}
use libsvr.AvlTree.Orders.{Ordering-cases}
use mathlib.Core.List.{append_assoc, map-append, append-nil}

-- the addresses of a tree in order
abbrev pub addrs : Node → List ℕ
addrs t = map (λ e. e.addr) (inorder t)

abbrev pub NotIn : ℕ → List ℕ → Type 0
NotIn p xs = All (λ a. a ≢ p) xs

abbrev pub Distinct : List ℕ → Type 0
Distinct [] = Unit
Distinct (x ∷ xs) = NotIn x xs × Distinct xs

pub addrs-node :
    (l r : Node) (h : ℕ) (e : Entry) → addrs (node l r h e) ≡ addrs l ++ (e.addr ∷ addrs r)
unfolding inorder
addrs-node l r h e = map-append (λ e. e.addr) (inorder l) (e ∷ inorder r)

addrs-balance : (l r : Node) (e : Entry) → addrs (balance l r e) ≡ addrs l ++ (e.addr ∷ addrs r)
addrs-balance l r e =
    ap (map (λ e. e.addr)) (inorder-balance l r e)
    ∙ map-append (λ e. e.addr) (inorder l) (e ∷ inorder r)

link_before_lem :
    (p x : ℕ) (front back : List ℕ)
    → NotIn p front
    → link_before p x (front ++ (p ∷ back)) ≡ front ++ (x ∷ p ∷ back)
unfolding link_before
link_before_lem p x [] back n = ground arith
link_before_lem p x (a ∷ front) back (n, more) = ground (arith, link_before_lem p x front back more)

link_behind_lem :
    (p x : ℕ) (front back : List ℕ)
    → NotIn p front
    → link_behind p x (front ++ (p ∷ back)) ≡ front ++ (p ∷ x ∷ back)
unfolding link_behind
link_behind_lem p x [] back n = ground arith
link_behind_lem p x (a ∷ front) back (n, more) = ground (arith, link_behind_lem p x front back more)

NotIn-middle :
    (a : ℕ) (front : List ℕ) (p : ℕ) (back : List ℕ) → NotIn a (front ++ (p ∷ back)) → p ≢ a
NotIn-middle a [] p back n = n.0
NotIn-middle a (b ∷ front) p back n = NotIn-middle a front p back n.1

pub Distinct-front :
    (front : List ℕ) (p : ℕ) (back : List ℕ) → Distinct (front ++ (p ∷ back)) → NotIn p front
Distinct-front [] p back d = tt
Distinct-front (a ∷ front) p back (n, d) =
    ((λ e. NotIn-middle a front p back n (sym e)), Distinct-front front p back d)

-- A link of the parent, or of the tree, that stands between `front` and `back` in the order.
data Fits : Spot → List ℕ → List ℕ → Type 0 where
  fits_root : Fits empty_root [] []
  fits_left : (p : ℕ) (front back : List ℕ) → NotIn p front → Fits (left_of p) front (p ∷ back)
  fits_right :
      (p : ℕ) (before front back : List ℕ)
      → front ≡ before ++ (p ∷ [])
      → NotIn p before
      → Fits (right_of p) front back

link_at_leaf :
    {s : Spot} {front back : List ℕ} (x : ℕ)
    → Fits s front back
    → link_chain s x (front ++ back) ≡ front ++ (x ∷ back)
unfolding link_chain
link_at_leaf x fits_root = refl
link_at_leaf x (fits_left p front back n) = link_before_lem p x front back n
link_at_leaf x (fits_right p before front back e n) =
    rw (e, append_assoc before (p ∷ []) back)
      (link_behind_lem p x before back n ∙ sym (append_assoc before (p ∷ []) (x ∷ back)))

NotIn-left : (a : ℕ) (xs ys : List ℕ) → NotIn a (xs ++ ys) → NotIn a xs
NotIn-left a [] ys n = tt
NotIn-left a (x ∷ xs) ys (n, more) = (n, NotIn-left a xs ys more)

module _ (front ps : List ℕ) (p : ℕ) (qs back : List ℕ) where
  under_front : front ++ ((ps ++ (p ∷ qs)) ++ back) ≡ front ++ (ps ++ (p ∷ (qs ++ back)))
  under_front = ap (λ xs. front ++ xs) (append_assoc ps (p ∷ qs) back)

  round_middle : front ++ (ps ++ (p ∷ (qs ++ back))) ≡ (front ++ ps) ++ (p ∷ (qs ++ back))
  round_middle = sym (append_assoc front ps (p ∷ (qs ++ back)))

  over_front : front ++ (ps ++ (p ∷ (qs ++ back))) ≡ ((front ++ ps) ++ (p ∷ [])) ++ (qs ++ back)
  over_front = round_middle ∙ sym (append_assoc (front ++ ps) (p ∷ []) (qs ++ back))

module _ (front : List ℕ) (l r : Node) (h : ℕ) (e : Entry) (back : List ℕ) where
  node_between :
      front ++ (addrs (node l r h e) ++ back) ≡ front ++ (addrs l ++ (e.addr ∷ (addrs r ++ back)))
  node_between =
      ap (λ xs. front ++ (xs ++ back)) (addrs-node l r h e)
      ∙ under_front front (addrs l) e.addr (addrs r) back

  balance_between :
      front ++ (addrs (balance l r e) ++ back) ≡ front ++ (addrs l ++ (e.addr ∷ (addrs r ++ back)))
  balance_between =
      ap (λ xs. front ++ (xs ++ back)) (addrs-balance l r e)
      ∙ under_front front (addrs l) e.addr (addrs r) back

  before_node : Distinct (front ++ (addrs (node l r h e) ++ back)) → NotIn e.addr (front ++ addrs l)
  before_node d =
      Distinct-front (front ++ addrs l) e.addr (addrs r ++ back)
        (subst Distinct (node_between ∙ round_middle front (addrs l) e.addr (addrs r) back) d)

module _ (cmp : ℕ → ℕ → Ordering) (x : Entry) where
  link_chain-spot :
      (t : Node) (s : Spot) (front back : List ℕ)
      → Fits s front back
      → Distinct (front ++ (addrs t ++ back))
      → link_chain (spot cmp x.key t s) x.addr (front ++ (addrs t ++ back))
        ≡ front ++ (addrs (link_node cmp x t) ++ back)
  unfolding spot link_node
  link_chain-spot leaf s front back f d = unfold inorder in link_at_leaf x.addr f
  link_chain-spot (node l r h e) s front back f d =
      let n = before_node front l r h e back d in
      let tail = e.addr ∷ (addrs r ++ back) in
      let head = (front ++ addrs l) ++ (e.addr ∷ []) in
      let here = node_between front l r h e back in
      let there = here ∙ over_front front (addrs l) e.addr (addrs r) back in
      elim (Ordering-cases (cmp x.key e.key)) [
        | inl below ↦
            rw (below, spot, link_node)
              (ap (link_chain (spot cmp x.key l (left_of e.addr)) x.addr) here
                ∙ link_chain-spot l (left_of e.addr) front tail
                    (fits_left e.addr front (addrs r ++ back) (NotIn-left e.addr front (addrs l) n))
                    (subst Distinct here d)
                ∙ sym (balance_between front (link_node cmp x l) r h e back))
        | inr (inl same) ↦ unfold link_chain in rw (same, spot, link_node) refl
        | inr (inr above) ↦
            rw (above, spot, link_node)
              (ap (link_chain (spot cmp x.key r (right_of e.addr)) x.addr) there
                ∙ link_chain-spot r (right_of e.addr) head back
                    (fits_right e.addr (front ++ addrs l) head back refl n) (subst Distinct there d)
                ∙ sym (
                    balance_between front l (link_node cmp x r) h e back
                    ∙ over_front front (addrs l) e.addr (addrs (link_node cmp x r)) back))
      ]

  -- In a tree whose addresses differ, the links between neighbours follow the order of the tree
  -- after a node is linked, if they did so before.
  pub link_chain-addrs :
      (t : Node)
      → Distinct (addrs t)
      → link_chain (spot cmp x.key t empty_root) x.addr (addrs t) ≡ addrs (link_node cmp x t)
  link_chain-addrs t d =
      ap (link_chain (spot cmp x.key t empty_root) x.addr) (sym (append-nil (addrs t)))
      ∙ link_chain-spot t empty_root [] [] fits_root (subst Distinct (sym (append-nil (addrs t))) d)
      ∙ append-nil (addrs (link_node cmp x t))

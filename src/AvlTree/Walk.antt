-- ===== src/AvlTree/Walk.antt =====
-- The walk along the neighbours of an AVL tree: `avl_first`, `avl_last`, `avl_next` and `avl_prev` of
-- src/avl_tree.c. A node is its address, and the null pointer is `none`.
use Prim.Native.Nat.{Ordering}
use libsvr.Common.{
  ℕ, ◌≡◌, refl, sym, ap, subst, ◌∙◌, eq→==, ne→==, ◌==◌, if◌then◌else◌, Option, none, some, List,
  [], ◌∷◌, ◌++◌,
}
use libsvr.AvlTree.{AvlTree}
use libsvr.AvlTree.Chain.{addrs, NotIn, Distinct, Distinct-front}
use libsvr.AvlTree.Inv.{IsWhole}
use mathlib.Core.List.{append_assoc}

abbrev first : List ℕ → Option ℕ
first [] = none
first (a ∷ rest) = some a

abbrev last : List ℕ → Option ℕ
last [] = none
last (a ∷ []) = some a
last (a ∷ b ∷ rest) = last (b ∷ rest)

-- the node behind `p`, and the one before it
after : ℕ → List ℕ → Option ℕ
after p [] = none
after p (a ∷ rest) = if a == p then first rest else after p rest

before : ℕ → List ℕ → Option ℕ
before p [] = none
before p (a ∷ []) = none
before p (a ∷ b ∷ rest) = if b == p then some a else before p (b ∷ rest)

abbrev pub avl_tree_size : AvlTree → ℕ
avl_tree_size t = t.size

abbrev pub avl_first : AvlTree → Option ℕ
avl_first t = first t.chain

abbrev pub avl_last : AvlTree → Option ℕ
avl_last t = last t.chain

pub avl_next : AvlTree → ℕ → Option ℕ
unfolding after
avl_next t p = after p t.chain

pub avl_prev : AvlTree → ℕ → Option ℕ
unfolding before
avl_prev t p = before p t.chain

after-middle :
    (p : ℕ) (front back : List ℕ) → NotIn p front → after p (front ++ (p ∷ back)) ≡ first back
unfolding after
after-middle p [] back n = rw (eq→== p p refl) refl
after-middle p (a ∷ front) back (n, more) = rw (ne→== a p n) (after-middle p front back more)

before-middle :
    (p : ℕ) (front : List ℕ) (q : ℕ) (back : List ℕ)
    → NotIn p (front ++ (q ∷ []))
    → before p (front ++ (q ∷ p ∷ back)) ≡ some q
unfolding before
before-middle p [] q back n = rw (eq→== p p refl) refl
before-middle p (a ∷ []) q back (n, m) = rw (ne→== q p m.0) (rw (eq→== p p refl) refl)
before-middle p (a ∷ b ∷ front) q back (n, more) =
    rw (ne→== b p more.0) (before-middle p (b ∷ front) q back more)

-- In a tree that satisfies the invariant, of two nodes that stand next to each other in the order
-- of the tree `avl_next` goes from the first to the second and `avl_prev` back.
pub avl_next-prev :
    {cmp : ℕ → ℕ → Ordering} (t : AvlTree) (front : List ℕ) (p q : ℕ) (back : List ℕ)
    → IsWhole cmp t
    → addrs t.root ≡ front ++ (p ∷ q ∷ back)
    → (avl_next t p ≡ some q) × (avl_prev t q ≡ some p)
unfolding avl_next avl_prev
avl_next-prev t front p q back w here =
    let chain = w.links ∙ here in
    let apart = subst Distinct here w.apart in
    (
      ap (after p) chain
          ∙ after-middle p front (q ∷ back) (Distinct-front front p (q ∷ back) apart),
      ap (before q) chain
          ∙ before-middle q front p back (
              Distinct-front (front ++ (p ∷ [])) q back
                (subst Distinct (sym (append_assoc front (p ∷ []) (q ∷ back))) apart)),
    )

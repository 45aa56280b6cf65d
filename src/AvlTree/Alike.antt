-- ===== src/AvlTree/Alike.antt =====
-- Entries that the order of the keys does not tell apart.
use Prim.Native.Nat.{Ordering}
use libsvr.Common.{ℕ, ◌≡◌, refl, ◌∙◌, List, [], ◌∷◌, ◌++◌, All}
use libsvr.AvlTree.{Entry}
use libsvr.AvlTree.Orders.{Sorted}

module _ (cmp : ℕ → ℕ → Ordering) where
  -- lists of entries that stand alike to all others, place by place
  abbrev pub Alike : List Entry → List Entry → Type 0
  Alike [] [] = Unit
  Alike [] (y ∷ ys) = ⊥
  Alike (x ∷ xs) [] = ⊥
  Alike (x ∷ xs) (y ∷ ys) =
      ((c : ℕ) → (cmp y.key c ≡ cmp x.key c) × (cmp c y.key ≡ cmp c x.key)) × Alike xs ys

  pub Alike-self : (xs : List Entry) → Alike xs xs
  Alike-self [] = tt
  Alike-self (x ∷ xs) = ((λ c. (refl, refl)), Alike-self xs)

  pub Alike-append :
      (xs xs' ys ys' : List Entry) → Alike xs xs' → Alike ys ys' → Alike (xs ++ ys) (xs' ++ ys')
  Alike-append [] [] ys ys' a b = b
  Alike-append [] (x ∷ xs') ys ys' a b = absurd a
  Alike-append (x ∷ xs) [] ys ys' a b = absurd a
  Alike-append (x ∷ xs) (x' ∷ xs') ys ys' (a, more) b = (a, Alike-append xs xs' ys ys' more b)

  All-Alike :
      (x x' : Entry) (ys ys' : List Entry)
      → ((c : ℕ) → cmp x'.key c ≡ cmp x.key c)
      → Alike ys ys'
      → All (λ y. cmp x.key y.key ≡ Ordering.lt) ys
      → All (λ y. cmp x'.key y.key ≡ Ordering.lt) ys'
  All-Alike x x' [] [] h a s = tt
  All-Alike x x' [] (y ∷ ys') h a s = absurd a
  All-Alike x x' (y ∷ ys) [] h a s = absurd a
  All-Alike x x' (y ∷ ys) (y' ∷ ys') h (a, more) (s, ss) =
      (h y'.key ∙ (a x.key).1 ∙ s, All-Alike x x' ys ys' h more ss)

  pub Sorted-Alike : (xs ys : List Entry) → Alike xs ys → Sorted cmp xs → Sorted cmp ys
  Sorted-Alike [] [] a s = tt
  Sorted-Alike [] (y ∷ ys) a s = absurd a
  Sorted-Alike (x ∷ xs) [] a s = absurd a
  Sorted-Alike (x ∷ xs) (y ∷ ys) (a, more) (s, ss) =
      (All-Alike x y xs ys (λ c. (a c).0) more s, Sorted-Alike xs ys more ss)

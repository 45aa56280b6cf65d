-- ===== src/AvlTree/Orders.antt =====
-- Sorted lists of entries, the abstract view of a search tree.
use Prim.Native.Nat.{Ordering, compare}
use libsvr.Common.{
  ℕ, ◌≡◌, ◌≢◌, ◌⊎◌, inl, inr, refl, ◌∙◌, arith, Option, none, some, List, [], ◌∷◌, ◌++◌, All,
}
use libsvr.AvlTree.{Entry}

pub Ordering-cases : (o : Ordering) → (o ≡ Ordering.lt) ⊎ (o ≡ Ordering.eq) ⊎ (o ≡ Ordering.gt)
Ordering-cases Ordering.lt = inl refl
Ordering-cases Ordering.eq = inr (inl refl)
Ordering-cases Ordering.gt = inr (inr refl)

-- What the tree relies on: the comparison is a total order in which keys that compare as equal
-- stand alike to all others.
pub record IsOrder (cmp : ℕ → ℕ → Ordering) : Type 0 where
  pub flip : (a b : ℕ) → cmp a b ≡ Ordering.gt → cmp b a ≡ Ordering.lt
  pub above : (a b : ℕ) → cmp a b ≡ Ordering.lt → cmp b a ≡ Ordering.gt
  pub trans : (a b c : ℕ) → cmp a b ≡ Ordering.lt → cmp b c ≡ Ordering.lt → cmp a c ≡ Ordering.lt
  pub alike : (a b c : ℕ) → cmp a b ≡ Ordering.eq → cmp a c ≡ cmp b c
  pub alike_right : (a b c : ℕ) → cmp a b ≡ Ordering.eq → cmp c a ≡ cmp c b

-- the order of the integers and of the pointers is one
pub integers : IsOrder compare
integers = record {
  flip = λ a b h. ground arith;
  above = λ a b h. ground arith;
  trans = λ a b c h k. ground arith;
  alike = λ a b c h. ground arith;
  alike_right = λ a b c h. ground arith;
}

module _ (cmp : ℕ → ℕ → Ordering) where
  abbrev pub Sorted : List Entry → Type 0
  Sorted [] = Unit
  Sorted (x ∷ xs) = All (λ y. cmp x.key y.key ≡ Ordering.lt) xs × Sorted xs

  unfoldable pub list_find : ℕ → List Entry → Option Entry
  list_find key [] = none
  list_find key (x ∷ xs) = elim (cmp key x.key) [
    | Ordering.lt ↦ none
    | Ordering.gt ↦ list_find key xs
    | Ordering.eq ↦ some x
  ]

  unfoldable pub list_insert : Entry → List Entry → List Entry
  list_insert x [] = x ∷ []
  list_insert x (y ∷ ys) = elim (cmp x.key y.key) [
    | Ordering.lt ↦ x ∷ y ∷ ys
    | Ordering.gt ↦ y ∷ list_insert x ys
    | Ordering.eq ↦ y ∷ ys
  ]

module _ {cmp : ℕ → ℕ → Ordering} (o : IsOrder cmp) where
  pub All-middle :
      (x : Entry) (xs : List Entry) (e : Entry) (ys : List Entry)
      → All (λ y. cmp x.key y.key ≡ Ordering.lt) (xs ++ (e ∷ ys))
      → cmp x.key e.key ≡ Ordering.lt
  All-middle x [] e ys h = h.0
  All-middle x (y ∷ xs) e ys h = All-middle x xs e ys h.1

  above_of_lt : (a b c : ℕ) → cmp a b ≡ Ordering.lt → cmp c b ≢ Ordering.lt → cmp c a ≡ Ordering.gt
  above_of_lt a b c h k = elim (Ordering-cases (cmp c b)) [
    | inl below ↦ absurd (k below)
    | inr (inl same) ↦ o.alike c b a same ∙ o.above a b h
    | inr (inr over) ↦ o.above a c (o.trans a b c h (o.flip c b over))
  ]

  -- a key not below the middle of a sorted list is above all that stands before the middle
  pub All-above :
      (k : ℕ) (xs : List Entry) (e : Entry) (ys : List Entry)
      → Sorted cmp (xs ++ (e ∷ ys))
      → cmp k e.key ≢ Ordering.lt
      → All (λ x. cmp k x.key ≡ Ordering.gt) xs
  All-above k [] e ys s h = tt
  All-above k (x ∷ xs) e ys (below, s) h =
      (above_of_lt x.key e.key k (All-middle x xs e ys below) h, All-above k xs e ys s h)

module _ (cmp : ℕ → ℕ → Ordering) where
  pub find_before :
      (k : ℕ) (xs : List Entry) (e : Entry) (ys : List Entry)
      → cmp k e.key ≡ Ordering.lt
      → list_find cmp k (xs ++ (e ∷ ys)) ≡ list_find cmp k xs
  unfolding list_find
  find_before k [] e ys h = ground arith
  find_before k (x ∷ xs) e ys h = ground (arith, find_before k xs e ys h)

  pub find_after :
      (k : ℕ) (xs zs : List Entry)
      → All (λ x. cmp k x.key ≡ Ordering.gt) xs
      → list_find cmp k (xs ++ zs) ≡ list_find cmp k zs
  unfolding list_find
  find_after k [] zs h = refl
  find_after k (x ∷ xs) zs h = ground (arith, find_after k xs zs h.1)

  pub insert_before :
      (x : Entry) (xs : List Entry) (e : Entry) (ys : List Entry)
      → cmp x.key e.key ≡ Ordering.lt
      → list_insert cmp x (xs ++ (e ∷ ys)) ≡ list_insert cmp x xs ++ (e ∷ ys)
  unfolding list_insert
  insert_before x [] e ys h = ground arith
  insert_before x (y ∷ xs) e ys h = ground (arith, insert_before x xs e ys h)

  pub insert_after :
      (x : Entry) (xs zs : List Entry)
      → All (λ y. cmp x.key y.key ≡ Ordering.gt) xs
      → list_insert cmp x (xs ++ zs) ≡ xs ++ list_insert cmp x zs
  unfolding list_insert
  insert_after x [] zs h = refl
  insert_after x (y ∷ xs) zs h = ground (arith, insert_after x xs zs h.1)

  pub find_at :
      (k : ℕ) (e : Entry) (ys : List Entry)
      → (cmp k e.key ≡ Ordering.eq → list_find cmp k (e ∷ ys) ≡ some e)
        × (cmp k e.key ≡ Ordering.gt → list_find cmp k (e ∷ ys) ≡ list_find cmp k ys)
  unfolding list_find
  find_at k e ys = (λ h. rw (h, list_find), λ h. rw (h, list_find))

  pub insert_at :
      (x e : Entry) (ys : List Entry)
      → (cmp x.key e.key ≡ Ordering.eq → list_insert cmp x (e ∷ ys) ≡ e ∷ ys)
        × (cmp x.key e.key ≡ Ordering.gt → list_insert cmp x (e ∷ ys) ≡ e ∷ list_insert cmp x ys)
  unfolding list_insert
  insert_at x e ys = (λ h. rw (h, list_insert), λ h. rw (h, list_insert))

  pub Sorted-left : (xs zs : List Entry) → Sorted cmp (xs ++ zs) → Sorted cmp xs
  Sorted-left [] zs s = tt
  Sorted-left (x ∷ xs) zs (a, s) = (All_left xs zs a, Sorted-left xs zs s)
    where
      All_left :
          (us vs : List Entry)
          → All (λ y. cmp x.key y.key ≡ Ordering.lt) (us ++ vs)
          → All (λ y. cmp x.key y.key ≡ Ordering.lt) us
      All_left [] vs h = tt
      All_left (u ∷ us) vs (h, hs) = (h, All_left us vs hs)

  pub Sorted-right : (xs zs : List Entry) → Sorted cmp (xs ++ zs) → Sorted cmp zs
  Sorted-right [] zs s = s
  Sorted-right (x ∷ xs) zs (a, s) = Sorted-right xs zs s

module _ {cmp : ℕ → ℕ → Ordering} (o : IsOrder cmp) where
  All-below :
      (x y : Entry) (ys : List Entry)
      → cmp x.key y.key ≡ Ordering.lt
      → All (λ z. cmp y.key z.key ≡ Ordering.lt) ys
      → All (λ z. cmp x.key z.key ≡ Ordering.lt) ys
  All-below x y [] h a = tt
  All-below x y (z ∷ ys) h (a, more) = (o.trans x.key y.key z.key h a, All-below x y ys h more)

  All-insert :
      (y x : Entry) (ys : List Entry)
      → cmp y.key x.key ≡ Ordering.lt
      → All (λ z. cmp y.key z.key ≡ Ordering.lt) ys
      → All (λ z. cmp y.key z.key ≡ Ordering.lt) (list_insert cmp x ys)
  unfolding list_insert
  All-insert y x [] h a = (h, tt)
  All-insert y x (z ∷ ys) h (a, more) = elim (Ordering-cases (cmp x.key z.key)) [
    | inl below ↦ rw (below, list_insert) (h, (a, more))
    | inr (inl same) ↦ rw (same, list_insert) (a, more)
    | inr (inr over) ↦ rw (over, list_insert) (a, All-insert y x ys h more)
  ]

  pub list_insert-Sorted :
      (x : Entry) (ys : List Entry) → Sorted cmp ys → Sorted cmp (list_insert cmp x ys)
  unfolding list_insert
  list_insert-Sorted x [] s = (tt, tt)
  list_insert-Sorted x (y ∷ ys) (a, s) = elim (Ordering-cases (cmp x.key y.key)) [
    | inl below ↦ rw (below, list_insert) ((below, All-below x y ys below a), (a, s))
    | inr (inl same) ↦ rw (same, list_insert) (a, s)
    | inr (inr over) ↦
        rw (over, list_insert)
          (All-insert y x ys (o.flip x.key y.key over) a, list_insert-Sorted x ys s)
  ]

  -- A key that is not in a sorted list is found after its entry is inserted, and nothing else
  -- changes.
  pub list_find-insert :
      (k : ℕ) (x : Entry) (ys : List Entry)
      → list_find cmp x.key ys ≡ none
      → list_find cmp k (list_insert cmp x ys)
        ≡ elim (cmp k x.key) [ Ordering.eq ↦ some x | _ ↦ list_find cmp k ys ]
  unfolding list_find list_insert
  list_find-insert k x [] n = ground arith
  list_find-insert k x (y ∷ ys) n = elim (Ordering-cases (cmp x.key y.key)) [
    | inl below ↦ ground (arith, below, o.trans k x.key y.key)
    | inr (inl same) ↦ absurd (cc (n, (find_at cmp x.key y ys).0 same))
    | inr (inr over) ↦ ground (
      arith,
      over,
      list_find-insert k x ys,
      o.flip x.key y.key over,
      o.trans k y.key x.key,
      o.alike k y.key x.key,
    )
  ]

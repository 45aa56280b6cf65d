-- ===== src/MemoryPool/Inv.antt =====
-- A node is free, in the list of the other threads, or taken: once, and in one block.
use libsvr.Common.{
  ℕ, zero, suc, ◌+◌, ◌-◌, ◌≤◌, ◌<◌, ◌≡◌, ◌≢◌, ◌⊎◌, inl, inr, refl, ap, ◌∙◌, arith, Bool-cases,
  Option, none, some, true, List, [], ◌∷◌, ◌++◌, ◌==◌, if◌then◌else◌, ==_iff, eq→==, ne→==, subst,
}
use libsvr.MemoryPool.{
  Block, MemUnit, times, nodes, block_nodes, create_memory_block, check_multi_free_cache, take_free,
  refilled, main_thread_alloc, unsigned, is_signed, memory_unit_free, multi_thread_free_cache,
}

pub times-append : (p : ℕ) (xs ys : List ℕ) → times p (xs ++ ys) ≡ times p xs + times p ys
unfolding times
times-append p [] ys = omega arith
times-append p (x ∷ xs) ys = omega (arith, times-append p xs ys)

-- the nodes of all blocks
unfoldable pub all_nodes : ℕ → List Block → List ℕ
all_nodes size [] = []
all_nodes size (b ∷ bs) = block_nodes size b ++ all_nodes size bs

unfoldable pub IsWhole : MemUnit → Type 0
IsWhole u =
    (p : ℕ)
    → (times p (all_nodes u.unit_size u.blocks)
        ≡ times p u.free_list + times p u.cache + times p u.signed)
      × (times p (all_nodes u.unit_size u.blocks) ≤ 1)

-- `malloc` gives a block that has no node in common with the others.
unfoldable pub IsFresh : MemUnit → ℕ → Type 0
IsFresh u address =
    (p : ℕ)
    → times p (block_nodes u.unit_size (record { address = address; node_count = u.grow_count }))
        + times p (all_nodes u.unit_size u.blocks)
      ≤ 1

nodes_below : (step a n p : ℕ) → p < a → times p (nodes step a n) ≡ 0
unfolding nodes times
nodes_below step a zero p h = refl
nodes_below step a (suc n) p h =
    rw (ne→== p a (λ e. absurd (omega arith))) (omega (arith, nodes_below step (a + step) n p))

-- the nodes of one block are different
pub nodes_once : (step a n p : ℕ) → 0 < step → times p (nodes step a n) ≤ 1
unfolding nodes times
nodes_once step a zero p h = omega arith
nodes_once step a (suc n) p h = elim (Bool-cases (p == a)) [
  | inl e ↦ let q = (==_iff p a).0 e in rw e (omega (arith, nodes_below step (a + step) n p))
  | inr e ↦ rw e (omega (arith, nodes_once step (a + step) n p))
]

check-IsWhole : (u : MemUnit) → u.free_list ≡ [] → IsWhole u → IsWhole (check_multi_free_cache u)
unfolding IsWhole check_multi_free_cache times
check-IsWhole u e w p =
    let (a, b) = w p in let f : times p u.free_list ≡ 0 = ap (times p) e in (omega arith, b)

create-IsWhole :
    (u : MemUnit) (address : ℕ)
    → IsFresh u address
    → IsWhole u
    → IsWhole (create_memory_block u address u.grow_count)
unfolding IsWhole IsFresh create_memory_block all_nodes
create-IsWhole u address fresh w p =
    let b : Block = record { address = address; node_count = u.grow_count } in
    let (e, l) = w p in
    let f = fresh p in
    let m = times-append p (block_nodes u.unit_size b) (all_nodes u.unit_size u.blocks) in
    let n = times-append p (block_nodes u.unit_size b) u.free_list in (omega arith, omega arith)

-- What is given out was not taken before, and is a node of a block.
unfoldable pub Gives : MemUnit → Option ℕ × MemUnit → Type 0
Gives u (given, u') =
    IsWhole u'
    × ((p : ℕ) × (given ≡ some (p + 8))
        × (times p u.signed ≡ 0)
        × (u'.signed ≡ p ∷ u.signed)
        × (times p (all_nodes u'.unit_size u'.blocks) ≡ 1))

take-Gives :
    (u : MemUnit) (p : ℕ) (ps : List ℕ)
    → u.free_list ≡ p ∷ ps
    → IsWhole u
    → Gives u (take_free u (p ∷ ps))
unfolding Gives IsWhole take_free times
take-Gives u p ps e w =
    let same : times p (p ∷ ps) ≡ 1 + times p ps = ground arith in
    let f : times p u.free_list ≡ 1 + times p ps = ap (times p) e ∙ same in
    let (a, b) = w p in
    (
      (λ q.
          let g : times q u.free_list ≡ times q (p ∷ ps) = ap (times q) e in
          let (c, d) = w q in (omega arith, d)),
      (p, refl, omega arith, refl, omega arith),
    )

-- a list that is not empty gives a node, whatever came before
Given : MemUnit → MemUnit → Type 0
Given u r = IsWhole r × (r.signed ≡ u.signed) × (r.free_list ≢ [])

nodes_lem : (step a n : ℕ) (xs : List ℕ) → n ≢ 0 → nodes step a n ++ xs ≢ []
unfolding nodes
nodes_lem step a zero xs g = λ h. g refl
nodes_lem step a (suc n) xs g = λ h. ground arith

fresh_lem :
    (u : MemUnit) (address : ℕ) → IsFresh u address → IsFresh (check_multi_free_cache u) address
unfolding IsFresh check_multi_free_cache
fresh_lem u address fresh = fresh

refilled-Given :
    (u : MemUnit) (address : ℕ)
    → u.free_list ≡ []
    → IsWhole u
    → IsFresh u address
    → u.grow_count ≢ 0
    → Given u (refilled u address)
unfolding Given refilled check_multi_free_cache create_memory_block nodes
refilled-Given u address e w fresh g = by_list u.cache refl
  where
    by_list :
        (cache : List ℕ)
        → u.cache ≡ cache
        → Given u (elim cache [
          | [] ↦ create_memory_block (check_multi_free_cache u) address u.grow_count
          | p ∷ ps ↦ check_multi_free_cache u
        ])
    by_list [] c = (
      create-IsWhole (check_multi_free_cache u) address (fresh_lem u address fresh)
          (check-IsWhole u e w),
      refl,
      nodes_lem _ _ u.grow_count u.cache g,
    )
    by_list (p ∷ ps) c = (check-IsWhole u e w, refl, λ f. absurd (ground arith))

take_from-Gives :
    (u r : MemUnit) (free : List ℕ) → r.free_list ≡ free → Given u r → Gives u (take_free r free)
unfolding Given Gives
take_from-Gives u r [] e (w, s, n) = absurd (n e)
take_from-Gives u r (p ∷ ps) e (w, s, n) =
    let (w', (q, a, b, c, d)) = take-Gives r p ps e w in
    (w', (q, a, subst (λ xs. times q xs ≡ 0) s b, c ∙ ap (λ xs. q ∷ xs) s, d))

-- In a unit where every node of its blocks is free, in the list of the other threads or taken, and
-- that once, and which may grow, if malloc gives a block that shares no node with the others, an
-- allocation by the unit's thread gives a node of a block that was not taken, takes exactly that
-- one, and keeps the unit so.
pub main_thread_alloc-Gives :
    (u : MemUnit) (address : ℕ)
    → IsWhole u
    → IsFresh u address
    → u.grow_count ≢ 0
    → Gives u (main_thread_alloc u address)
unfolding main_thread_alloc Given
main_thread_alloc-Gives u address w fresh g = by_list u.free_list refl
  where
    by_list :
        (free : List ℕ)
        → u.free_list ≡ free
        → Gives u (elim free [
          | [] ↦
              if u.grow_count == 0
              then (none, u)
              else take_free (refilled u address) (refilled u address).free_list
          | p ∷ ps ↦ take_free u (p ∷ ps)
        ])
    by_list [] e =
        rw (ne→== u.grow_count 0 g)
          (take_from-Gives u (refilled u address) _ refl (refilled-Given u address e w fresh g))
    by_list (p ∷ ps) e = take-Gives u p ps e w

times-unsigned :
    (p q : ℕ) (xs : List ℕ) → times q (unsigned p xs) ≡ times q xs - (if p == q then 1 else 0)
unfolding times unsigned
times-unsigned p q [] = omega arith
times-unsigned p q (x ∷ xs) = ground (arith, times-unsigned p q xs)

-- the unit after a free, with the two lists that it makes
abbrev freed : MemUnit → ℕ → List ℕ → List ℕ → ℕ → ℕ → MemUnit
freed u p free cache count tag = record u {
  free_list = free;
  cache = cache;
  signed = unsigned p u.signed;
  alloc_count = count;
  tag_1 = tag;
}

-- a node went back, once
abbrev Freed : MemUnit → ℕ → MemUnit → Type 0
Freed u p u' = IsWhole u' × (u'.signed ≡ unsigned p u.signed) × (times p u'.signed ≡ 0)

freed-IsWhole :
    (u : MemUnit) (p : ℕ) (free cache : List ℕ) (count tag : ℕ)
    → IsWhole u
    → times p u.signed ≢ 0
    → ((q : ℕ)
        → times q free + times q cache
          ≡ (if p == q then 1 else 0) + (times q u.free_list + times q u.cache))
    → Freed u p (freed u p free cache count tag)
unfolding IsWhole
freed-IsWhole u p free cache count tag w s f = (
  (λ q. elim (Bool-cases (p == q)) [
    | inl e ↦
        let some_time : times q u.signed ≢ 0 =
          subst (λ x. times x u.signed ≢ 0) ((==_iff p q).0 e) s in
        let g : times q free + times q cache ≡ 1 + (times q u.free_list + times q u.cache) =
          rw e at (f q) in
        let h : times q (unsigned p u.signed) ≡ times q u.signed - 1 =
          rw e at (times-unsigned p q u.signed) in
        let (a, b) = w q in (omega arith, b)
    | inr e ↦
        let g : times q free + times q cache ≡ 0 + (times q u.free_list + times q u.cache) =
          rw e at (f q) in
        let h : times q (unsigned p u.signed) ≡ times q u.signed - 0 =
          rw e at (times-unsigned p q u.signed) in
        let (a, b) = w q in (omega arith, b)
  ]),
  refl,
  (let h : times p (unsigned p u.signed) ≡ times p u.signed - 1 =
        rw (eq→== p p refl) at (times-unsigned p p u.signed) in
      let (a, b) = w p in omega arith),
)

pub is_signed_lem : (u : MemUnit) (p : ℕ) → is_signed u p ≡ true → times p u.signed ≢ 0
is_signed_lem u p h = ground arith

-- In a unit where every node is free, in the list of the other threads or taken, and that once, a
-- free that does not crash, by the unit's thread or by another one, gives back exactly that node
-- and keeps the unit so.
pub frees-IsWhole :
    (u u' : MemUnit) (mem : ℕ)
    → IsWhole u
    → (memory_unit_free u mem ≡ some u') ⊎ (multi_thread_free_cache u mem ≡ some u')
    → Freed u (mem - 8) u'
unfolding memory_unit_free multi_thread_free_cache times
frees-IsWhole u u' mem w h = elim (Bool-cases (is_signed u (mem - 8))) [
  | inl s ↦ elim h [
    | inl h ↦
        subst (Freed u (mem - 8)) (ap (λ o. elim o [ none ↦ u | some x ↦ x ]) (rw s at h))
          (freed-IsWhole u (mem - 8) _ _ _ _ w (is_signed_lem u _ s) (λ q. ground arith))
    | inr h ↦
        subst (Freed u (mem - 8)) (ap (λ o. elim o [ none ↦ u | some x ↦ x ]) (rw s at h))
          (freed-IsWhole u (mem - 8) _ _ _ _ w (is_signed_lem u _ s) (λ q. ground arith))
  ]
  | inr n ↦ absurd (ground arith)
]

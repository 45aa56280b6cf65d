-- ===== src/MemoryPool/Tidy.antt =====
-- What `memory_unit_tidy` leaves of the blocks and of the free list.
use libsvr.Common.{
  ℕ, ◌+◌, ◌≤◌, ◌≡◌, ◌≢◌, ◌⊎◌, inl, inr, refl, sym, ap, ◌∙◌, arith, Bool-cases, Bool, true, false,
  not, List, [], ◌∷◌, ◌++◌, ◌==◌, sub64, eq→==, ne→==, subst,
}
use libsvr.MemoryPool.{
  Block, MemUnit, times, block_nodes, block_bytes, is_signed, tidy_nodes, can_free, tidy_loop,
  memory_unit_tidy,
}
use libsvr.MemoryPool.Inv.{IsWhole, all_nodes, times-append, is_signed_lem}

module _ (u : MemUnit) (b : Block) (bs : List Block) (free : List ℕ) (size : ℕ) where
  -- a block is given back, or kept
  abbrev released : MemUnit
  released = tidy_loop u bs free (sub64 size (block_bytes u.unit_size b))

  abbrev kept : MemUnit
  kept = tidy_loop u bs (tidy_nodes u (block_nodes u.unit_size b) ++ free) size

  abbrev with_block : MemUnit
  with_block = record kept { blocks = b ∷ kept.blocks }

  released_lem :
      can_free u (block_nodes u.unit_size b) ≡ true → tidy_loop u (b ∷ bs) free size ≡ released
  unfolding tidy_loop
  released_lem c = rw (tidy_loop, c) refl

  kept_lem :
      can_free u (block_nodes u.unit_size b) ≡ false → tidy_loop u (b ∷ bs) free size ≡ with_block
  unfolding tidy_loop
  kept_lem c = rw (tidy_loop, c) refl

module _ (u : MemUnit) (p : ℕ) where
  differs : (n : ℕ) (b : Bool) → is_signed u p ≡ b → is_signed u n ≡ not b → (p == n) ≡ false
  differs n b s r = ne→== p n (λ e. not_itself b (sym s ∙ ap (is_signed u) e ∙ r))
    where
      not_itself : (b : Bool) → b ≢ not b
      not_itself true h = ground arith
      not_itself false h = ground arith

  tidy_nodes-signed : (ns : List ℕ) → is_signed u p ≡ true → times p (tidy_nodes u ns) ≡ 0
  unfolding times tidy_nodes
  tidy_nodes-signed [] s = refl
  tidy_nodes-signed (n ∷ ns) s = elim (Bool-cases (is_signed u n)) [
    | inl r ↦ rw r (tidy_nodes-signed ns s)
    | inr r ↦ rw (r, differs n true s r) (omega (arith, tidy_nodes-signed ns s))
  ]

  tidy_nodes-free : (ns : List ℕ) → is_signed u p ≡ false → times p (tidy_nodes u ns) ≡ times p ns
  unfolding times tidy_nodes
  tidy_nodes-free [] s = refl
  tidy_nodes-free (n ∷ ns) s = elim (Bool-cases (is_signed u n)) [
    | inl r ↦ rw (r, differs n false s r) (omega (arith, tidy_nodes-free ns s))
    | inr r ↦ rw r (omega (arith, tidy_nodes-free ns s))
  ]

  can_free-signed : (ns : List ℕ) → is_signed u p ≡ true → can_free u ns ≡ true → times p ns ≡ 0
  unfolding times can_free
  can_free-signed [] s c = refl
  can_free-signed (n ∷ ns) s c = elim (Bool-cases (is_signed u n)) [
    | inl r ↦ absurd (let e : false ≡ true = rw (can_free, r) at c in ground arith)
    | inr r ↦ rw (differs n true s r) (omega (arith, can_free-signed ns s (rw (can_free, r) at c)))
  ]

  abbrev Kept : List Block → List ℕ → MemUnit → Type 0
  Kept bs free r =
      (times p (all_nodes u.unit_size r.blocks) ≡ times p (all_nodes u.unit_size bs))
      × (times p r.free_list ≡ times p free)

  abbrev Free : List Block → List ℕ → MemUnit → Type 0
  Free bs free r =
      (times p r.free_list ≡ times p free + times p (all_nodes u.unit_size r.blocks))
      × (times p (all_nodes u.unit_size r.blocks) ≤ times p (all_nodes u.unit_size bs))

  -- the nodes that have the sign keep their blocks, and their lists are as before
  loop-Kept :
      (bs : List Block) (free : List ℕ) (size : ℕ)
      → is_signed u p ≡ true
      → Kept bs free (tidy_loop u bs free size)
  unfolding tidy_loop all_nodes times
  loop-Kept [] free size s = (refl, refl)
  loop-Kept (b ∷ bs) free size s = elim (Bool-cases (can_free u (block_nodes u.unit_size b))) [
    | inl c ↦
        let (e, f) = loop-Kept bs free (sub64 size (block_bytes u.unit_size b)) s in
        let g = can_free-signed (block_nodes u.unit_size b) s c in
        let h = times-append p (block_nodes u.unit_size b) (all_nodes u.unit_size bs) in
        subst (Kept (b ∷ bs) free) (sym (released_lem u b bs free size c)) (omega arith, f)
    | inr c ↦
        let (e, f) = loop-Kept bs (tidy_nodes u (block_nodes u.unit_size b) ++ free) size s in
        let g = tidy_nodes-signed (block_nodes u.unit_size b) s in
        let h = times-append p (block_nodes u.unit_size b) (all_nodes u.unit_size bs) in
        let k = times-append p (block_nodes u.unit_size b) (
          all_nodes u.unit_size
            (tidy_loop u bs (tidy_nodes u (block_nodes u.unit_size b) ++ free) size).blocks) in
        let l = times-append p (tidy_nodes u (block_nodes u.unit_size b)) free in
        subst (Kept (b ∷ bs) free) (sym (kept_lem u b bs free size c)) (omega arith, omega arith)
  ]

  -- the others are free, as far as their blocks are kept
  loop-Free :
      (bs : List Block) (free : List ℕ) (size : ℕ)
      → is_signed u p ≡ false
      → Free bs free (tidy_loop u bs free size)
  unfolding tidy_loop all_nodes times
  loop-Free [] free size s = (omega arith, omega arith)
  loop-Free (b ∷ bs) free size s = elim (Bool-cases (can_free u (block_nodes u.unit_size b))) [
    | inl c ↦
        let (e, f) = loop-Free bs free (sub64 size (block_bytes u.unit_size b)) s in
        let h = times-append p (block_nodes u.unit_size b) (all_nodes u.unit_size bs) in
        subst (Free (b ∷ bs) free) (sym (released_lem u b bs free size c)) (e, omega arith)
    | inr c ↦
        let (e, f) = loop-Free bs (tidy_nodes u (block_nodes u.unit_size b) ++ free) size s in
        let g = tidy_nodes-free (block_nodes u.unit_size b) s in
        let h = times-append p (block_nodes u.unit_size b) (all_nodes u.unit_size bs) in
        let k = times-append p (block_nodes u.unit_size b) (
          all_nodes u.unit_size
            (tidy_loop u bs (tidy_nodes u (block_nodes u.unit_size b) ++ free) size).blocks) in
        let l = times-append p (tidy_nodes u (block_nodes u.unit_size b)) free in
        subst (Free (b ∷ bs) free) (sym (kept_lem u b bs free size c)) (omega arith, omega arith)
  ]

-- the fields that the loop leaves alone
abbrev SameRest : MemUnit → MemUnit → Type 0
SameRest u r = (r.unit_size ≡ u.unit_size) × (r.signed ≡ u.signed) × (r.cache ≡ u.cache)

loop_rest :
    (u : MemUnit) (bs : List Block) (free : List ℕ) (size : ℕ)
    → SameRest u (tidy_loop u bs free size)
unfolding tidy_loop
loop_rest u [] free size = (refl, refl, refl)
loop_rest u (b ∷ bs) free size = elim (Bool-cases (can_free u (block_nodes u.unit_size b))) [
  | inl c ↦
      subst (SameRest u) (sym (released_lem u b bs free size c))
        (loop_rest u bs free (sub64 size (block_bytes u.unit_size b)))
  | inr c ↦
      subst (SameRest u) (sym (kept_lem u b bs free size c))
        (loop_rest u bs (tidy_nodes u (block_nodes u.unit_size b) ++ free) size)
]

not_signed_lem : (u : MemUnit) (p : ℕ) → is_signed u p ≡ false → times p u.signed ≡ 0
not_signed_lem u p h = ground arith

-- how often a node stands in the blocks and in the free list afterwards
tidy_counts :
    (u : MemUnit) (p : ℕ)
    → IsWhole u
    → (times p (all_nodes (memory_unit_tidy u).unit_size (memory_unit_tidy u).blocks)
        ≡ times p (memory_unit_tidy u).free_list + times p u.signed)
      × (times p (all_nodes (memory_unit_tidy u).unit_size (memory_unit_tidy u).blocks) ≤ 1)
unfolding IsWhole memory_unit_tidy times
tidy_counts u p w =
    let (z, s, c) = loop_rest u u.blocks [] u.blocks_size in
    let (a, b) = w p in
    subst
      (λ n.
        (times p (all_nodes n (memory_unit_tidy u).blocks)
          ≡ times p (memory_unit_tidy u).free_list + times p u.signed)
        × (times p (all_nodes n (memory_unit_tidy u).blocks) ≤ 1))
      (sym z)
      (elim (Bool-cases (is_signed u p)) [
        | inl s ↦
            let (e, f) = loop-Kept u p u.blocks [] u.blocks_size s in
            let n = is_signed_lem u p s in (omega arith, omega arith)
        | inr s ↦
            let (e, f) = loop-Free u p u.blocks [] u.blocks_size s in
            let n = not_signed_lem u p s in (omega arith, omega arith)
      ])

-- In a unit where every node is free or taken, and that once, and the other threads have given
-- nothing back, memory_unit_tidy keeps the blocks of all nodes that are taken, and every node of
-- the blocks that are left is again free or taken, and that once.
pub memory_unit_tidy-IsWhole :
    (u : MemUnit)
    → IsWhole u
    → u.cache ≡ []
    → IsWhole (memory_unit_tidy u) × ((memory_unit_tidy u).signed ≡ u.signed)
unfolding IsWhole memory_unit_tidy times
memory_unit_tidy-IsWhole u w e =
    let (z, s, c) = loop_rest u u.blocks [] u.blocks_size in
    (
      (λ p.
          let (a, b) = tidy_counts u p w in
          let none_left : times p (memory_unit_tidy u).cache ≡ 0 = ap (times p) (c ∙ e) in
          let same : times p (memory_unit_tidy u).signed ≡ times p u.signed = ap (times p) s in
          (omega arith, b)),
      s,
    )

-- If another thread has given back a node that is first in its list, then after memory_unit_tidy
-- the node is still first in that list, and it is also in the free list or its block has been
-- released.
pub memory_unit_tidy-cache :
    (u : MemUnit) (p : ℕ) (ps : List ℕ)
    → IsWhole u
    → u.cache ≡ p ∷ ps
    → ((qs : List ℕ) × ((memory_unit_tidy u).cache ≡ p ∷ qs))
      × ((times p (memory_unit_tidy u).free_list ≡ 1)
          ⊎ (times p (all_nodes (memory_unit_tidy u).unit_size (memory_unit_tidy u).blocks) ≡ 0))
unfolding IsWhole memory_unit_tidy times
memory_unit_tidy-cache u p ps w e =
    let (z, s, c) = loop_rest u u.blocks [] u.blocks_size in
    let (a, b) = tidy_counts u p w in
    let (x, y) = w p in
    let first : times p (p ∷ ps) ≡ 1 + times p ps = rw (eq→== p p refl) refl in
    let held : times p u.cache ≡ 1 + times p ps = ap (times p) e ∙ first in
    ((ps, c ∙ e), ground arith)

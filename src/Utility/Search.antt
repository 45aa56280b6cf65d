-- ===== src/Utility/Search.antt =====
-- `memmem_s` and `split_mem_to_segments` of src/utility.cpp. A pointer into a block of memory is the
-- list of the bytes from it to the end of the block, so `p + n` is `drop n p` and `end - p` is
-- `length p`; the null pointer is `none` or `absent`.
pub mod Sound
pub mod Places
pub mod Segments
mod Tests
use libsvr.Common.{
  ℕ, zero, suc, ◌+◌, ◌-◌, Bool, true, false, Option, none, some, ltb, leb, ◌==◌, ◌&&◌,
  if◌then◌else◌, List, [], ◌∷◌, ◌++◌, length, drop,
}

-- `memchr(p, c, end - p)`
pub memchr : List ℕ → ℕ → Option (List ℕ)
memchr [] c = none
memchr (x ∷ xs) c = if x == c then some (x ∷ xs) else memchr xs c

-- `!memcmp(p, q, n)`; a read past either end is no match.
pub memcmp_same : ℕ → List ℕ → List ℕ → Bool
memcmp_same zero p q = true
memcmp_same (suc n) [] q = false
memcmp_same (suc n) (x ∷ p) [] = false
memcmp_same (suc n) (x ∷ p) (y ∷ q) = (x == y) && memcmp_same n p q

-- A pointer, 0, or no answer since the fuel ran out.
pub data Found : Type 0 where
  found : List ℕ → Found
  absent : Found
  stuck : Found

-- The `for (;;)` of `memmem_s`. The needle's first byte is `c`, the bytes behind it are `cs`.
pub memmem_loop : ℕ → List ℕ → ℕ → List ℕ → ℕ → Found
memmem_loop zero p c cs needlelen = stuck
memmem_loop (suc fuel) p c cs needlelen = elim (memchr p c) [
  | none ↦ absent
  | some q ↦
      let next = memmem_loop fuel (drop needlelen q) c cs needlelen in
      if ltb (length q) needlelen
      then absent
      else if memcmp_same needlelen q (c ∷ cs)
      then found q
      else next
]

of_pointer : Option (List ℕ) → Found
of_pointer none = absent
of_pointer (some q) = found q

pub memmem_s : List ℕ → ℕ → List ℕ → ℕ → Found
unfolding of_pointer
memmem_s haystack c cs needlelen =
    if ltb 1 needlelen
    then memmem_loop (suc (length haystack)) haystack c cs needlelen
    else of_pointer (memchr haystack c)

pub record MemSeg : Type 0 where
  pub mem : Option (List ℕ)
  pub mem_size : ℕ

-- the segment from `ptr_begin` to `ptr_pos`; its `mem` is 0 where it is empty
abbrev pub segment : List ℕ → List ℕ → MemSeg
segment ptr_begin ptr_pos = record {
  mem = if ltb (length ptr_pos) (length ptr_begin) then some ptr_begin else none;
  mem_size = length ptr_begin - length ptr_pos;
}

-- `segs[seg_count] = seg`, unless the array of `max` segments is full
abbrev pub store : ℕ → ℕ → List MemSeg → MemSeg → List MemSeg
store max seg_count segs seg = if ltb seg_count max then segs ++ (seg ∷ []) else segs

-- The rest after the last separator is a segment if it is not empty.
pub split_last : ℕ → List ℕ → ℕ → List MemSeg → ℕ × List MemSeg
split_last max [] seg_count segs = (seg_count, segs)
split_last max (x ∷ xs) seg_count segs = (
  seg_count + 1,
  store max seg_count segs (record { mem = some (x ∷ xs); mem_size = length (x ∷ xs) }),
)

-- The `while (ptr_pos)`. The separator is `c ∷ cs`; `none` means that the fuel ran out.
pub split_loop : ℕ → ℕ → List ℕ → ℕ → ℕ → List ℕ → ℕ → List MemSeg → Option (ℕ × List MemSeg)
split_loop zero c cs split_size max ptr_begin seg_count segs = none
split_loop (suc fuel) c cs split_size max ptr_begin seg_count segs =
    elim (memmem_s ptr_begin c cs split_size) [
      | found ptr_pos ↦
          split_loop fuel c cs split_size max (drop split_size ptr_pos) (seg_count + 1)
            (store max seg_count segs (segment ptr_begin ptr_pos))
      | absent ↦ some (split_last max ptr_begin seg_count segs)
      | stuck ↦ none
    ]

-- The result is the number returned and the part of `segs` that was written.
pub split_mem_to_segments : List ℕ → ℕ → List ℕ → ℕ → ℕ → Option (ℕ × List MemSeg)
split_mem_to_segments mem c cs split_size max =
    split_loop (suc (length mem)) c cs split_size max mem 0 []

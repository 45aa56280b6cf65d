-- ===== src/Utility/Search/Tests.antt =====
-- Searches and splits at concrete blocks.
use libsvr.Common.{ℕ, ◌≡◌, ◌≢◌, refl, arith, List, [], ◌∷◌, length, take, some, none, map}
use libsvr.Utility.Search.{
  found, memmem_s, memmem_loop, memchr, memcmp_same, of_pointer, MemSeg, split_mem_to_segments,
  split_loop, split_last,
}
use libsvr.Utility.Search.Sound.{memmem_s_misses}
use libsvr.Utility.Search.Segments.{Cut, seg_bytes, split_mem-Cut}

-- "ab,,c," split at ","
abbrev fields : List ℕ
fields = 97 ∷ 98 ∷ 44 ∷ 44 ∷ 99 ∷ 44 ∷ []

split_fields :
    split_mem_to_segments fields 44 [] 1 2
    ≡ some
        (3, record { mem = some fields; mem_size = 2 } ∷ (record { mem = none; mem_size = 0 } ∷ []))
unfolding split_mem_to_segments split_loop split_last memmem_s of_pointer memchr
split_fields = refl

-- "\r\n" in "a\r\n"
found_line : memmem_s (97 ∷ 13 ∷ 10 ∷ []) 13 (10 ∷ []) 2 ≡ found (13 ∷ 10 ∷ [])
unfolding memmem_s memmem_loop memchr memcmp_same
found_line = refl

-- "\r\r\n"
memmem_s_misses_example : memmem_s (13 ∷ 13 ∷ 10 ∷ []) 13 (10 ∷ []) 2 ≢ found (13 ∷ 10 ∷ [])
memmem_s_misses_example = memmem_s_misses 13 10 [] (omega arith)

split_mem-Cut_example :
    (pieces : List (List ℕ)) × (count : ℕ) × (segs : List MemSeg) × Cut (44 ∷ []) fields pieces
    × (split_mem_to_segments fields 44 [] 1 2 ≡ some (count, segs))
    × (count ≡ length pieces)
    × (map seg_bytes segs ≡ take 2 pieces)
split_mem-Cut_example = split_mem-Cut 44 [] 2 fields

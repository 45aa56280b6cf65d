-- ===== src/MemoryPool/Tests.antt =====
-- A unit of 8 bytes with blocks of two nodes: a node taken, given back, and given back by another thread.
use libsvr.Common.{ℕ, ◌≡◌, ◌⊎◌, inr, refl, subst, arith, some, List, [], ◌∷◌}
use libsvr.MemoryPool.{
  MemUnit, times, nodes, set_grow_bytes, create_memory_unit, create_memory_block,
  check_multi_free_cache, take_free, refilled, main_thread_alloc, unsigned, multi_thread_free_cache,
  memory_unit_tidy,
}
use libsvr.MemoryPool.Inv.{
  all_nodes, IsWhole, IsFresh, Gives, nodes_once, main_thread_alloc-Gives, frees-IsWhole,
}
use libsvr.MemoryPool.Tidy.{memory_unit_tidy-IsWhole, memory_unit_tidy-cache}

abbrev empty : MemUnit
empty = set_grow_bytes (create_memory_unit 8) 48

empty-IsWhole : IsWhole empty
unfolding IsWhole all_nodes times
empty-IsWhole p = (omega arith, omega arith)

empty-IsFresh : IsFresh empty 1000
unfolding IsFresh all_nodes times
empty-IsFresh p = omega (arith, nodes_once 16 1016 2 p)

main_thread_alloc-Gives_example : Gives empty (main_thread_alloc empty 1000)
main_thread_alloc-Gives_example =
    main_thread_alloc-Gives empty 1000 empty-IsWhole empty-IsFresh (λ h. absurd (omega arith))

-- the unit with its first node taken
abbrev taken : MemUnit
taken = record empty {
  blocks = record { address = 1000; node_count = 2 } ∷ [];
  free_list = 1032 ∷ [];
  signed = 1016 ∷ [];
  alloc_count = 1;
  blocks_size = 160;
  tag_0 = 1;
  tag_1 = 1;
}

taken_lem : main_thread_alloc empty 1000 ≡ (some 1024, taken)
unfolding main_thread_alloc refilled check_multi_free_cache create_memory_block take_free nodes
taken_lem = refl

taken-IsWhole : IsWhole taken
unfolding Gives
taken-IsWhole = subst (λ r. IsWhole r.1) taken_lem main_thread_alloc-Gives_example.0

-- the node given back by another thread
abbrev given_back : MemUnit
given_back = record taken { cache = 1016 ∷ []; signed = []; tag_1 = 2 }

given_back_lem : multi_thread_free_cache taken 1024 ≡ some given_back
unfolding multi_thread_free_cache times unsigned
given_back_lem = refl

frees-IsWhole_example :
    IsWhole given_back
    × (given_back.signed ≡ unsigned 1016 taken.signed)
    × (times 1016 given_back.signed ≡ 0)
frees-IsWhole_example = frees-IsWhole taken given_back 1024 taken-IsWhole (inr given_back_lem)

memory_unit_tidy-IsWhole_example :
    IsWhole (memory_unit_tidy taken) × ((memory_unit_tidy taken).signed ≡ taken.signed)
memory_unit_tidy-IsWhole_example = memory_unit_tidy-IsWhole taken taken-IsWhole refl

memory_unit_tidy-cache_example :
    ((qs : List ℕ) × ((memory_unit_tidy given_back).cache ≡ 1016 ∷ qs))
    × ((times 1016 (memory_unit_tidy given_back).free_list ≡ 1)
        ⊎ (times 1016 (
              all_nodes
                (memory_unit_tidy given_back).unit_size
                (memory_unit_tidy given_back).blocks)
            ≡ 0))
memory_unit_tidy-cache_example =
    memory_unit_tidy-cache given_back 1016 [] frees-IsWhole_example.0 refl

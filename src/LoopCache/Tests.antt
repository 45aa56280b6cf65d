-- ===== src/LoopCache/Tests.antt =====
-- The ring at concrete inputs. The block of memory is 8 bytes from address 1000 on.
use libsvr.Common.{ℕ, ◌+◌, ◌-◌, ◌^◌, ◌≤◌, ◌<◌, ◌≡◌, ◌⊎◌, refl, arith, true, false, [], ◌∷◌, ◌++◌}
use libsvr.Common.Memory.{Memory, bytes, items, memcpy}
use libsvr.LoopCache.{
  LoopCache, loop_cache_data_size, loop_cache_free_size, loop_cache_push_data, loop_cache_pop_data,
  loop_cache_push, loop_cache_pop, loop_cache_get_free, loop_cache_get_data,
}
use libsvr.LoopCache.Inv.{IsValid}
use libsvr.LoopCache.Contents.{contents, IsApart}
use libsvr.LoopCache.Queue
use libsvr.LoopCache.Push.{push_data_refines}
use libsvr.LoopCache.Pop.{pop_data_takes}
use libsvr.LoopCache.Zones.{get_data-pop, get_free-push, push_data_overflow}

abbrev fresh : LoopCache
fresh = record { cache_begin = 1000; cache_end = 1008; head = 1000; tail = 1000; size = 8 }

-- five bytes held, from 1006 on and round the end
abbrev wrapped : LoopCache
wrapped = record { cache_begin = 1000; cache_end = 1008; head = 1006; tail = 1003; size = 8 }

-- Every byte of memory holds its own address.
abbrev addresses : Memory
addresses a = a

wrapped-IsValid : IsValid wrapped
wrapped-IsValid = omega arith

apart : IsApart wrapped 10 2
apart = omega arith

held : contents addresses wrapped ≡ 1006 ∷ 1007 ∷ 1000 ∷ 1001 ∷ 1002 ∷ []
unfolding items loop_cache_data_size
held = refl

-- Two bytes are pushed behind the five, and one more does not fit.
push_pop_run :
    let (s, m', c') = loop_cache_push_data wrapped addresses 10 2 in
    (s ≡ true)
    × (contents m' c' ≡ 1006 ∷ 1007 ∷ 1000 ∷ 1001 ∷ 1002 ∷ 10 ∷ 11 ∷ [])
    × ((loop_cache_push_data c' m' 20 1).0 ≡ false)
unfolding items loop_cache_data_size loop_cache_push_data memcpy
push_pop_run = (refl, refl, refl)

-- The free bytes of a ring that does not wrap are handed out up to its end.
get_free_run :
    (loop_cache_get_free fresh 0 ≡ (1000, 7)) × (loop_cache_get_data wrapped 0 ≡ (1006, 2))
unfolding loop_cache_get_free loop_cache_get_data loop_cache_free_size loop_cache_data_size
get_free_run = (refl, refl)

push_data_refines_example :
    let (s, m', c') = loop_cache_push_data wrapped addresses 10 2 in
    ((s, contents m' c') ≡ Queue.push 7 (contents addresses wrapped) (bytes addresses 10 2))
    × IsValid c'
    × ((a : ℕ) → (a < 1000) ⊎ (1008 ≤ a) → m' a ≡ a)
push_data_refines_example = push_data_refines addresses 10 2 wrapped-IsValid apart (omega arith)

pop_data_takes_example :
    let (s, m', c') = loop_cache_pop_data wrapped addresses 10 2 in
    (s ≡ true)
    × (contents addresses wrapped ≡ bytes m' 10 2 ++ contents m' c')
    × IsValid c'
    × ((a : ℕ) → (a < 10) ⊎ (12 ≤ a) → m' a ≡ a)
pop_data_takes_example =
    pop_data_takes addresses 10 2 wrapped-IsValid apart (unfold loop_cache_data_size in omega arith)

get_data-pop_example :
    let (p, n) = loop_cache_get_data wrapped 0 in
    let (s, c') = loop_cache_pop wrapped n in
    (contents addresses wrapped ≡ bytes addresses p n ++ contents addresses c')
    × (s ≡ true)
    × IsValid c'
    × (n ≡ 0 → loop_cache_data_size wrapped ≡ 0)
    × (1000 ≤ p)
    × (p + n ≤ 1008)
get_data-pop_example = get_data-pop wrapped-IsValid 0 addresses

get_free-push_example :
    let (p, n) = loop_cache_get_free wrapped 1 in
    let (s, c') = loop_cache_push wrapped n in
    (contents addresses c' ≡ contents addresses wrapped ++ bytes addresses p n)
    × (s ≡ true)
    × IsValid c'
    × (n ≡ 0 → loop_cache_free_size wrapped ≡ 0)
    × (1000 ≤ p)
    × (p + n ≤ 1008)
get_free-push_example = get_free-push wrapped-IsValid 1 addresses addresses (λ a h. refl)

push_data_overflow_example :
    ((loop_cache_push_data wrapped addresses 10 (2 ^ 64 - 1)).0 ≡ true) × (8 ≤ 2 ^ 64 - 1)
push_data_overflow_example =
    push_data_overflow wrapped-IsValid (2 ^ 64 - 1) addresses 10 (omega arith) (omega arith)

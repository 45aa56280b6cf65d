-- ===== src/LoopCache.antt =====
-- The byte ring of src/loop_cache.c (struct `loop_cache` of src/lib_svr_common_def.h).
-- A pointer is an address, and the bytes that a call copies lie in one flat memory, which a copying
-- call takes and returns. Pointer sums and differences are those of 64-bit words.
pub mod Inv
pub mod Queue
pub mod Contents
pub mod Moves
pub mod Push
pub mod Pop
pub mod Zones
mod Tests
use libsvr.Common.{ℕ, ◌+◌, ◌-◌, ◌≡◌, Bool, true, false, Option, none, some, ltb, leb, ◌==◌}
use libsvr.Common.{if◌then◌else◌, add64, sub64}
use libsvr.Common.Memory.{Memory, memcpy}

pub record LoopCache : Type 0 where
  pub cache_begin : ℕ
  pub cache_end : ℕ
  pub head : ℕ
  pub tail : ℕ
  pub size : ℕ

-- `create_loop_cache`, the bytes of the ring at `memory` (the caller's, or those behind the struct)
pub create_loop_cache : ℕ → ℕ → Option LoopCache
create_loop_cache memory size =
    if size == 0
    then none
    else some (record {
      cache_begin = memory;
      cache_end = add64 memory size;
      head = memory;
      tail = memory;
      size = size;
    })

-- `dist` and `used`, the first two lines of nearly every operation
abbrev dist : LoopCache → ℕ
dist c = sub64 (add64 c.tail c.size) c.head

pub loop_cache_data_size : LoopCache → ℕ
loop_cache_data_size c = if leb c.size (dist c) then sub64 (dist c) c.size else dist c

pub loop_cache_free_size : LoopCache → ℕ
loop_cache_free_size c = sub64 (sub64 c.size (loop_cache_data_size c)) 1

-- `size + used + 1 > cache->size`, in `size_t`
abbrev pub no_room : LoopCache → ℕ → Bool
no_room c size = ltb c.size (add64 (add64 size (loop_cache_data_size c)) 1)

-- `cache->tail + size >= cache->cache_end`
abbrev pub tail_wraps : LoopCache → ℕ → Bool
tail_wraps c size = leb c.cache_end (add64 c.tail size)

abbrev pub head_wraps : LoopCache → ℕ → Bool
head_wraps c size = leb c.cache_end (add64 c.head size)

pub loop_cache_push_data : LoopCache → Memory → ℕ → ℕ → Bool × Memory × LoopCache
loop_cache_push_data c m user size =
    let seg_1 = sub64 c.cache_end c.tail in
    let seg_2 = sub64 size seg_1 in
    let m' = memcpy m c.tail user seg_1 in
    if no_room c size
    then (false, m, c)
    else if tail_wraps c size
    then (
      true,
      memcpy m' c.cache_begin (add64 user seg_1) seg_2,
      record c { tail = add64 c.cache_begin seg_2 },
    )
    else (true, memcpy m c.tail user size, record c { tail = add64 c.tail size })

pub loop_cache_pop_data : LoopCache → Memory → ℕ → ℕ → Bool × Memory × LoopCache
loop_cache_pop_data c m user size =
    let seg_1 = sub64 c.cache_end c.head in
    let seg_2 = sub64 size seg_1 in
    let m' = memcpy m user c.head seg_1 in
    if ltb (loop_cache_data_size c) size
    then (false, m, c)
    else if head_wraps c size
    then (
      true,
      memcpy m' (add64 user seg_1) c.cache_begin seg_2,
      record c { head = add64 c.cache_begin seg_2 },
    )
    else (true, memcpy m user c.head size, record c { head = add64 c.head size })

-- the same copy, with the ring left as it is
pub loop_cache_copy_data : LoopCache → Memory → ℕ → ℕ → Bool × Memory
loop_cache_copy_data c m user size =
    let seg_1 = sub64 c.cache_end c.head in
    let seg_2 = sub64 size seg_1 in
    let m' = memcpy m user c.head seg_1 in
    if ltb (loop_cache_data_size c) size
    then (false, m)
    else if head_wraps c size
    then (true, memcpy m' (add64 user seg_1) c.cache_begin seg_2)
    else (true, memcpy m user c.head size)

-- `loop_cache_push` and `loop_cache_pop` move the pointers past bytes that the caller copies.
pub loop_cache_push : LoopCache → ℕ → Bool × LoopCache
loop_cache_push c size =
    let seg_1 = sub64 c.cache_end c.tail in
    let seg_2 = sub64 size seg_1 in
    if no_room c size
    then (false, c)
    else if tail_wraps c size
    then (true, record c { tail = add64 c.cache_begin seg_2 })
    else (true, record c { tail = add64 c.tail size })

pub loop_cache_pop : LoopCache → ℕ → Bool × LoopCache
loop_cache_pop c size =
    let seg_1 = sub64 c.cache_end c.head in
    let seg_2 = sub64 size seg_1 in
    if ltb (loop_cache_data_size c) size
    then (false, c)
    else if head_wraps c size
    then (true, record c { head = add64 c.cache_begin seg_2 })
    else (true, record c { head = add64 c.head size })

-- The length asked for (0 for as much as there is), cut to what is there.
abbrev clip : ℕ → ℕ → ℕ
clip asked there = if asked == 0 then there else if ltb there asked then there else asked

-- The returned pair is the pointer and the final `*cache_len`.
pub loop_cache_get_free : LoopCache → ℕ → ℕ × ℕ
loop_cache_get_free c cache_len =
    let len = clip cache_len (loop_cache_free_size c) in
    (c.tail, if tail_wraps c len then sub64 c.cache_end c.tail else len)

pub loop_cache_get_data : LoopCache → ℕ → ℕ × ℕ
loop_cache_get_data c cache_len =
    let len = clip cache_len (loop_cache_data_size c) in
    (c.head, if head_wraps c len then sub64 c.cache_end c.head else len)

pub loop_cache_reset : LoopCache → ℕ → ℕ → LoopCache
loop_cache_reset c size memory = record c {
  cache_begin = memory;
  head = memory;
  tail = memory;
  cache_end = add64 memory size;
  size = size;
}

pub loop_cache_reinit : LoopCache → LoopCache
loop_cache_reinit c = record c { head = c.cache_begin; tail = c.cache_begin }

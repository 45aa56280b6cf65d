-- ===== src/LoopCache/Inv.antt =====
-- The representation invariant of `loop_cache`, which every operation keeps.
use libsvr.Common.{ℕ, ◌+◌, ◌-◌, ◌^◌, ◌≤◌, ◌<◌, ◌≡◌, some, arith}
use libsvr.LoopCache.{
  LoopCache, create_loop_cache, loop_cache_data_size, loop_cache_free_size, loop_cache_push,
  loop_cache_pop,
}

-- Both pointers lie in the ring, and the ring lies in the lower half of the address space.
pub record IsValid (c : LoopCache) : Type 0 where
  pub whole : c.cache_begin + c.size ≡ c.cache_end
  pub low : c.cache_end ≤ 2 ^ 63
  pub head_from : c.cache_begin ≤ c.head
  pub head_to : c.head < c.cache_end
  pub tail_from : c.cache_begin ≤ c.tail
  pub tail_to : c.tail < c.cache_end

-- how many bytes lie between the two pointers, in plain arithmetic
pub data_size_cases :
    {c : LoopCache}
    → IsValid c
    → (c.head ≤ c.tail → loop_cache_data_size c ≡ c.tail - c.head)
      × (c.tail < c.head → loop_cache_data_size c ≡ c.size + c.tail - c.head)
unfolding loop_cache_data_size
data_size_cases v = ground arith

pub data_size-lt-size : {c : LoopCache} → IsValid c → loop_cache_data_size c < c.size
unfolding loop_cache_data_size
data_size-lt-size v = ground arith

-- On a valid ring the bytes held, the bytes free and the one that is never used make up the ring.
pub free_size-add-data_size :
    {c : LoopCache} → IsValid c → loop_cache_free_size c + loop_cache_data_size c + 1 ≡ c.size
unfolding loop_cache_free_size
free_size-add-data_size v = ground (arith, data_size-lt-size v)

-- A new ring over a block of memory that ends in the lower half is valid and empty.
pub create-IsValid :
    (memory size : ℕ) {c : LoopCache}
    → memory + size ≤ 2 ^ 63
    → create_loop_cache memory size ≡ some c
    → IsValid c × (loop_cache_data_size c ≡ 0)
unfolding create_loop_cache loop_cache_data_size
create-IsValid memory size h e = ground arith

module _ {c : LoopCache} (v : IsValid c) where
  pub push-IsValid : (size : ℕ) → size ≤ c.size → IsValid (loop_cache_push c size).1
  unfolding loop_cache_push
  push-IsValid size h = ground (arith, data_size-lt-size v, data_size_cases v)

  pub pop-IsValid : (size : ℕ) → IsValid (loop_cache_pop c size).1
  unfolding loop_cache_pop
  pop-IsValid size = ground (arith, data_size-lt-size v, data_size_cases v)

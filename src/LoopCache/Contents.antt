-- ===== src/LoopCache/Contents.antt =====
-- What a `loop_cache` holds, and what its callers may lend it.
use libsvr.Common.{ℕ, ◌+◌, ◌-◌, ◌^◌, ◌≤◌, ◌<◌, ◌⊎◌, ltb, if◌then◌else◌, List}
use libsvr.Common.Memory.{Memory, items}
use libsvr.LoopCache.{LoopCache, loop_cache_data_size}

-- the address of the byte that stands `i` places behind the head
abbrev pub slot : LoopCache → ℕ → ℕ
slot c i = if ltb (c.head + i) c.cache_end then c.head + i else c.head + i - c.size

-- the address that the `i`-th byte to come is written to
abbrev pub free_slot : LoopCache → ℕ → ℕ
free_slot c i = if ltb (c.tail + i) c.cache_end then c.tail + i else c.tail + i - c.size

-- the bytes held, oldest first
abbrev pub contents : Memory → LoopCache → List ℕ
contents m c = items (λ i. m (slot c i)) (loop_cache_data_size c)

-- The caller's block of `size` bytes does not meet the ring, and ends below the last address.
pub record IsApart (c : LoopCache) (user size : ℕ) : Type 0 where
  pub fits : user + size < 2 ^ 64
  pub apart : (user + size ≤ c.cache_begin) ⊎ (c.cache_end ≤ user)

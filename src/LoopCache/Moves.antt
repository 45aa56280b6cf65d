-- ===== src/LoopCache/Moves.antt =====
-- How the bytes held move when the head or the tail does.
use libsvr.Common.{ℕ, ◌+◌, ◌-◌, ◌<◌, ◌≤◌, ◌≡◌, ◌⊎◌, true, arith}
use libsvr.LoopCache.{LoopCache, loop_cache_data_size, loop_cache_push, loop_cache_pop}
use libsvr.LoopCache.Inv.{IsValid}
use libsvr.LoopCache.Contents.{slot, free_slot}

module _ {c : LoopCache} (v : IsValid c) (size : ℕ) (enough : size ≤ loop_cache_data_size c) where
  pub pop_slot :
      (i : ℕ)
      → i < loop_cache_data_size c - size
      → slot c (size + i) ≡ slot (loop_cache_pop c size).1 i
  unfolding loop_cache_pop loop_cache_data_size
  pop_slot i h = ground arith

  pub pop_ok : (loop_cache_pop c size).0 ≡ true
  unfolding loop_cache_pop
  pop_ok = ground arith

  pub pop_size : size + loop_cache_data_size (loop_cache_pop c size).1 ≡ loop_cache_data_size c
  unfolding loop_cache_pop loop_cache_data_size
  pop_size = ground arith

module _ {c : LoopCache} (v : IsValid c) (size : ℕ)
    (room : size + loop_cache_data_size c < c.size) where
  pub push_ok : (loop_cache_push c size).0 ≡ true
  unfolding loop_cache_push loop_cache_data_size
  push_ok = ground arith

  pub push_size : loop_cache_data_size c + size ≡ loop_cache_data_size (loop_cache_push c size).1
  unfolding loop_cache_push loop_cache_data_size
  push_size = ground arith

  pub push_old_slot :
      (i : ℕ) → i < loop_cache_data_size c → slot (loop_cache_push c size).1 i ≡ slot c i
  unfolding loop_cache_push loop_cache_data_size
  push_old_slot i h = ground arith

  pub push_new_slot :
      (i : ℕ)
      → i < size
      → slot (loop_cache_push c size).1 (loop_cache_data_size c + i) ≡ free_slot c i
  unfolding loop_cache_push loop_cache_data_size
  push_new_slot i h = ground arith

  pub push_old_apart :
      (i : ℕ)
      → i < loop_cache_data_size c
      → c.tail + size ≤ c.cache_end
      → (slot c i < c.tail) ⊎ (c.tail + size ≤ slot c i)
  unfolding loop_cache_data_size
  push_old_apart i h l = ground arith

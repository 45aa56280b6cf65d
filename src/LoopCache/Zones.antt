-- ===== src/LoopCache/Zones.antt =====
-- `loop_cache_get_data` and `loop_cache_get_free`: the callers that read and write the ring in place.
use libsvr.Common.{ℕ, ◌+◌, ◌^◌, ◌≤◌, ◌<◌, ◌≡◌, ◌⊎◌, ap, ◌∙◌, arith, true, ◌++◌}
use libsvr.Common.Memory.{Memory, bytes, items_split}
use libsvr.LoopCache.{
  LoopCache, loop_cache_data_size, loop_cache_free_size, loop_cache_get_data, loop_cache_get_free,
  loop_cache_push, loop_cache_pop, loop_cache_push_data,
}
use libsvr.LoopCache.Inv.{
  IsValid, data_size-lt-size, free_size-add-data_size, pop-IsValid, push-IsValid,
}
use libsvr.LoopCache.Contents.{contents}
use libsvr.LoopCache.Moves.{
  pop_slot, pop_size, pop_ok, push_ok, push_size, push_old_slot, push_new_slot, push_old_apart,
}

module _ {c : LoopCache} (v : IsValid c) (asked : ℕ) where
  get_data_zone :
      let (p, n) = loop_cache_get_data c asked in
      (p ≡ c.head) × (n ≤ loop_cache_data_size c) × (c.head + n ≤ c.cache_end)
  unfolding loop_cache_get_data loop_cache_data_size
  get_data_zone = ground arith

  get_data_some : (loop_cache_get_data c asked).1 ≡ 0 → loop_cache_data_size c ≡ 0
  unfolding loop_cache_get_data loop_cache_data_size
  get_data_some h = ground arith

  get_free_zone :
      let (p, n) = loop_cache_get_free c asked in
      (p ≡ c.tail) × (n ≤ loop_cache_free_size c) × (c.tail + n ≤ c.cache_end)
  unfolding loop_cache_get_free loop_cache_free_size
  get_free_zone = ground (arith, data_size-lt-size v)

  get_free_some : (loop_cache_get_free c asked).1 ≡ 0 → loop_cache_free_size c ≡ 0
  unfolding loop_cache_get_free loop_cache_free_size
  get_free_some h = ground (arith, data_size-lt-size v)

  -- On a valid ring, `loop_cache_get_data` returns the address and length of a block inside the
  -- ring that is a prefix of the bytes held, empty only if the ring is; `loop_cache_pop` of that length
  -- then returns true and leaves a valid ring with the rest.
  pub get_data-pop :
      (m : Memory)
      → let (p, n) = loop_cache_get_data c asked in
        let (s, c') = loop_cache_pop c n in
        (contents m c ≡ bytes m p n ++ contents m c')
        × (s ≡ true)
        × IsValid c'
        × (n ≡ 0 → loop_cache_data_size c ≡ 0)
        × (c.cache_begin ≤ p)
        × (p + n ≤ c.cache_end)
  get_data-pop m =
      let (p_head, most, inside) = get_data_zone in
      (
        items_split _ _ _ _ _ _ (pop_size v _ most) (λ i h. ap m (ground arith))
            (λ i h. ap m (pop_slot v _ most i (omega (arith, pop_size v _ most)))),
        pop_ok v _ most,
        pop-IsValid v _,
        get_data_some,
        omega arith,
        omega arith,
      )

  -- On a valid ring, `loop_cache_get_free` returns the address and length of a block inside the ring,
  -- empty only if no byte is free; whatever is written into that block and nowhere else,
  -- `loop_cache_push` of its length then returns true and leaves a valid ring that holds the bytes
  -- held before, followed by those of the block.
  pub get_free-push :
      (m m' : Memory)
      → (let (p, n) = loop_cache_get_free c asked in (a : ℕ) → (a < p) ⊎ (p + n ≤ a) → m' a ≡ m a)
      → let (p, n) = loop_cache_get_free c asked in
        let (s, c') = loop_cache_push c n in
        (contents m' c' ≡ contents m c ++ bytes m' p n)
        × (s ≡ true)
        × IsValid c'
        × (n ≡ 0 → loop_cache_free_size c ≡ 0)
        × (c.cache_begin ≤ p)
        × (p + n ≤ c.cache_end)
  get_free-push m m' same =
      let (p_tail, most, inside) = get_free_zone in
      let room : (loop_cache_get_free c asked).1 + loop_cache_data_size c < c.size =
        omega (arith, free_size-add-data_size v) in
      (
        items_split _ _ _ _ _ _ (push_size v _ room)
            (λ i h.
              ap m' (push_old_slot v _ room i h)
              ∙ same _ (rw p_tail (push_old_apart v _ room i h inside)))
            (λ i h. ap m' (push_new_slot v _ room i h ∙ ground arith)),
        push_ok v _ room,
        push-IsValid v _ (omega arith),
        get_free_some,
        omega arith,
        omega arith,
      )

  -- `size + used + 1` is computed in 64 bits: on a valid ring a block so long that the sum passes
  -- 2 ^ 64 is accepted, though it is as long as the ring at least.
  pub push_data_overflow :
      (m : Memory) (user : ℕ)
      → asked < 2 ^ 64
      → 2 ^ 64 ≤ asked + loop_cache_data_size c + 1
      → ((loop_cache_push_data c m user asked).0 ≡ true) × (c.size ≤ asked)
  unfolding loop_cache_push_data
  push_data_overflow m user h k = ground (arith, data_size-lt-size v)

-- ===== src/LoopCache/Push.antt =====
-- `loop_cache_push_data` against the queue of bytes.
use libsvr.Common.{
  ℕ, ◌+◌, ◌-◌, ◌^◌, ◌≤◌, ◌<◌, ◌≡◌, ◌⊎◌, inr, refl, ap, ap₂, ◌∙◌, arith, true, false, ◌++◌, length,
  dec_lt, add64, sub64,
}
use libsvr.Common.Memory.{
  Memory, memcpy, memcpy_inside, memcpy_outside, bytes, length-items, items_split,
}
use libsvr.LoopCache.{LoopCache, loop_cache_data_size, loop_cache_push_data}
use libsvr.LoopCache.Inv.{IsValid, data_size-lt-size}
use libsvr.LoopCache.Contents.{slot, free_slot, contents, IsApart}
use libsvr.LoopCache.Queue
use libsvr.LoopCache.Queue.{Splits}

module _ {c : LoopCache} (m : Memory) (user size : ℕ) (v : IsValid c)
    (u : IsApart c user size) where
  push_full :
      c.size ≤ size + loop_cache_data_size c
      → size < 2 ^ 64 - c.size
      → loop_cache_push_data c m user size ≡ (false, m, c)
  unfolding loop_cache_push_data
  push_full h h' = ground (arith, data_size-lt-size v)

  module _ (room : size + loop_cache_data_size c < c.size) where
    push_size :
        let (s, m', c') = loop_cache_push_data c m user size in
        (s ≡ true) × (loop_cache_data_size c + size ≡ loop_cache_data_size c')
    unfolding loop_cache_push_data loop_cache_data_size
    push_size = ground arith

    push_old :
        (i : ℕ)
        → i < loop_cache_data_size c
        → (let (s, m', c') = loop_cache_push_data c m user size in m' (slot c' i)) ≡ m (slot c i)
    unfolding loop_cache_push_data loop_cache_data_size memcpy
    push_old i h = ground arith

    push_new_slot :
        (i : ℕ)
        → i < size
        → slot (loop_cache_push_data c m user size).2 (loop_cache_data_size c + i) ≡ free_slot c i
    unfolding loop_cache_push_data loop_cache_data_size
    push_new_slot i h = ground arith

    -- the push in plain arithmetic, where the block ends before the ring does
    push_flat :
        c.tail + size < c.cache_end
        → loop_cache_push_data c m user size
          ≡ (true, memcpy m c.tail user size, record c { tail = c.tail + size })
    unfolding loop_cache_push_data loop_cache_data_size
    push_flat h = ground arith

    -- and where it goes round
    push_round :
        c.cache_end ≤ c.tail + size
        → let seg_1 = c.cache_end - c.tail in
          loop_cache_push_data c m user size ≡ (
            true,
            memcpy (memcpy m c.tail user seg_1) c.cache_begin (user + seg_1) (size - seg_1),
            record c { tail = c.cache_begin + (size - seg_1) },
          )
    push_round h = cc (branch, seg_1, user_2, seg_2, tail_2)
      where
        seg_1 : sub64 c.cache_end c.tail ≡ c.cache_end - c.tail
        seg_1 = omega arith

        user_2 : add64 user (c.cache_end - c.tail) ≡ user + (c.cache_end - c.tail)
        user_2 = omega arith

        seg_2 : sub64 size (c.cache_end - c.tail) ≡ size - (c.cache_end - c.tail)
        seg_2 = omega arith

        tail_2 :
            add64 c.cache_begin (size - (c.cache_end - c.tail))
            ≡ c.cache_begin + (size - (c.cache_end - c.tail))
        tail_2 = ground (arith, data_size-lt-size v)

        branch : loop_cache_push_data c m user size ≡ (
          true,
          memcpy
              (memcpy m c.tail user (sub64 c.cache_end c.tail))
              c.cache_begin
              (add64 user (sub64 c.cache_end c.tail))
              (sub64 size (sub64 c.cache_end c.tail)),
          record c { tail = add64 c.cache_begin (sub64 size (sub64 c.cache_end c.tail)) },
        )
        branch = unfold loop_cache_push_data in ground (arith, data_size-lt-size v)

    push_new_byte :
        (i : ℕ) → i < size → (loop_cache_push_data c m user size).1 (free_slot c i) ≡ m (user + i)
    push_new_byte i h = elim (dec_lt (c.tail + size) c.cache_end) [
      | yes flat ↦ rw (push_flat flat) (memcpy_inside m c.tail user size _ i (ground arith) h)
      | no round ↦ rw (push_round (omega arith)) (elim (dec_lt (c.tail + i) c.cache_end) [
        | yes first ↦
            memcpy_outside _ c.cache_begin _ _ _ (inr (ground arith))
            ∙ memcpy_inside m c.tail user _ _ i (ground arith) (omega arith)
        | no later ↦
            memcpy_inside _ c.cache_begin _ _ _ (i - (c.cache_end - c.tail)) (ground arith)
              (omega arith)
            ∙ memcpy_outside m c.tail user _ _ (ground arith)
            ∙ ap m (omega arith)
      ])
    ]

    push_new :
        (i : ℕ)
        → i < size
        → (let (s, m', c') = loop_cache_push_data c m user size in
            m' (slot c' (loop_cache_data_size c + i)))
          ≡ m (user + i)
    push_new i h = ap (loop_cache_push_data c m user size).1 (push_new_slot i h) ∙ push_new_byte i h

    push_contents :
        (let (s, m', c') = loop_cache_push_data c m user size in contents m' c')
        ≡ contents m c ++ bytes m user size
    push_contents =
        items_split _ (λ i. m (slot c i)) (λ i. m (user + i)) _ size _ push_size.1 push_old push_new

    push-IsValid_data : IsValid (loop_cache_push_data c m user size).2
    unfolding loop_cache_push_data loop_cache_data_size
    push-IsValid_data = ground arith

    push_frame :
        (a : ℕ)
        → (a < c.cache_begin) ⊎ (c.cache_end ≤ a)
        → (loop_cache_push_data c m user size).1 a ≡ m a
    unfolding loop_cache_push_data loop_cache_data_size memcpy
    push_frame a h = ground arith

  -- On a valid ring, for a block apart from it and not so long that `size + used + 1` wraps:
  -- `loop_cache_push_data` returns what the queue of capacity `size - 1` returns for the bytes of the
  -- block, and leaves a valid ring that holds that queue; memory outside the ring is unchanged.
  pub push_data_refines :
      size < 2 ^ 64 - c.size
      → let (s, m', c') = loop_cache_push_data c m user size in
        ((s, contents m' c') ≡ Queue.push (c.size - 1) (contents m c) (bytes m user size))
        × IsValid c'
        × ((a : ℕ) → (a < c.cache_begin) ⊎ (c.cache_end ≤ a) → m' a ≡ m a)
  unfolding Queue.push
  push_data_refines small = elim (dec_lt (size + loop_cache_data_size c) c.size) [
    | yes room ↦ (
      ground (arith, lengths, push_size room, push_contents room),
      push-IsValid_data room,
      push_frame room,
    )
    | no full ↦ rw (push_full (omega arith) small) (ground (arith, lengths), v, λ a h. refl)
  ]
    where
      lengths : length (bytes m user size) + length (contents m c) ≡ size + loop_cache_data_size c
      lengths = ap₂ ◌+◌ (length-items _ size) (length-items _ _)

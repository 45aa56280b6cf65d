-- ===== src/LoopCache/Pop.antt =====
-- `loop_cache_pop_data` and `loop_cache_copy_data`: the oldest bytes go out, or are only read.
use libsvr.Common.{
  ℕ, ◌+◌, ◌-◌, ◌≤◌, ◌<◌, ◌≡◌, ◌⊎◌, inl, refl, sym, ap, ◌∙◌, arith, leb, true, false, List, ◌++◌,
  dec_lt, add64, sub64,
}
use libsvr.Common.Memory.{
  Memory, memcpy, memcpy_inside, memcpy_outside, items_ext, bytes, items_split,
}
use libsvr.LoopCache.{
  LoopCache, loop_cache_data_size, loop_cache_pop_data, loop_cache_copy_data, loop_cache_pop,
}
use libsvr.LoopCache.Inv.{IsValid, data_size-lt-size, pop-IsValid}
use libsvr.LoopCache.Contents.{slot, contents, IsApart}
use libsvr.LoopCache.Moves.{pop_slot, pop_size}

-- Popping is copying, and moving the head.
pub pop_data-copy_data :
    (c : LoopCache) (m : Memory) (user size : ℕ)
    → loop_cache_pop_data c m user size ≡ (
      (loop_cache_copy_data c m user size).0,
      (loop_cache_copy_data c m user size).1,
      (loop_cache_pop c size).1,
    )
unfolding loop_cache_pop_data loop_cache_copy_data loop_cache_pop
pop_data-copy_data c m user size = ground arith

module _ {c : LoopCache} (m : Memory) (user size : ℕ) (v : IsValid c) where
  copy_short : loop_cache_data_size c < size → loop_cache_copy_data c m user size ≡ (false, m)
  unfolding loop_cache_copy_data
  copy_short h = ground arith

  module _ (u : IsApart c user size) (enough : size ≤ loop_cache_data_size c) where
    copy_flat :
        c.head + size < c.cache_end
        → loop_cache_copy_data c m user size ≡ (true, memcpy m user c.head size)
    unfolding loop_cache_copy_data loop_cache_data_size
    copy_flat h = ground arith

    copy_round :
        c.cache_end ≤ c.head + size
        → let seg_1 = c.cache_end - c.head in
          loop_cache_copy_data c m user size
          ≡ (true, memcpy (memcpy m user c.head seg_1) (user + seg_1) c.cache_begin (size - seg_1))
    copy_round h = cc (branch, seg_1, user_2, seg_2)
      where
        seg_1 : sub64 c.cache_end c.head ≡ c.cache_end - c.head
        seg_1 = omega arith

        user_2 : add64 user (c.cache_end - c.head) ≡ user + (c.cache_end - c.head)
        user_2 = omega arith

        seg_2 : sub64 size (c.cache_end - c.head) ≡ size - (c.cache_end - c.head)
        seg_2 = omega (arith, data_size-lt-size v)

        branch : loop_cache_copy_data c m user size ≡ (
          true,
          memcpy
              (memcpy m user c.head (sub64 c.cache_end c.head))
              (add64 user (sub64 c.cache_end c.head))
              c.cache_begin
              (sub64 size (sub64 c.cache_end c.head)),
        )
        branch = unfold loop_cache_copy_data in ground (arith, data_size-lt-size v)

    copy_ok : (loop_cache_copy_data c m user size).0 ≡ true
    unfolding loop_cache_copy_data
    copy_ok = ground arith

    copy_frame :
        (a : ℕ) → (a < user) ⊎ (user + size ≤ a) → (loop_cache_copy_data c m user size).1 a ≡ m a
    copy_frame a h = elim (dec_lt (c.head + size) c.cache_end) [
      | yes flat ↦ rw (copy_flat flat) (memcpy_outside m user _ size a h)
      | no round ↦
          rw (copy_round (omega arith))
            (memcpy_outside _ _ _ _ a (ground arith) ∙ memcpy_outside m user _ _ a (ground arith))
    ]

    copy_byte :
        (i : ℕ) → i < size → (loop_cache_copy_data c m user size).1 (user + i) ≡ m (slot c i)
    copy_byte i h = elim (dec_lt (c.head + size) c.cache_end) [
      | yes flat ↦
          rw (copy_flat flat) (memcpy_inside m user c.head size _ i refl h ∙ ap m (ground arith))
      | no round ↦ rw (copy_round (omega arith)) (elim (dec_lt (c.head + i) c.cache_end) [
        | yes first ↦
            memcpy_outside _ _ _ _ _ (inl (omega arith))
            ∙ memcpy_inside m user c.head _ _ i refl (omega arith)
            ∙ ap m (ground arith)
        | no later ↦
            memcpy_inside _ _ c.cache_begin _ _ (i - (c.cache_end - c.head)) (omega arith)
              (omega arith)
            ∙ memcpy_outside m user _ _ _ (ground (arith, data_size-lt-size v))
            ∙ ap m (ground arith)
      ])
    ]

    slot_apart : (i : ℕ) → i < loop_cache_data_size c → (slot c i < user) ⊎ (user + size ≤ slot c i)
    slot_apart i h = ground (arith, data_size-lt-size v)

    popped :
        contents m c
        ≡ bytes (loop_cache_copy_data c m user size).1 user size
          ++ contents (loop_cache_copy_data c m user size).1 (loop_cache_pop c size).1
    popped =
        items_split _ _ _ size _ _ (pop_size v size enough) (λ i h. sym (copy_byte i h))
          (λ i h.
            sym (
              copy_frame (slot c (size + i))
                (slot_apart (size + i) (omega (arith, pop_size v size enough))))
            ∙ ap (loop_cache_copy_data c m user size).1
                (pop_slot v size enough i (omega (arith, pop_size v size enough))))

    kept : contents (loop_cache_copy_data c m user size).1 c ≡ contents m c
    kept = items_ext _ _ _ (λ i h. copy_frame (slot c i) (slot_apart i h))

  -- On a valid ring that holds `size` bytes at least, for a block apart from it:
  -- `loop_cache_pop_data` returns true, the block receives the oldest `size` bytes in order, the
  -- ring keeps the others and is valid, and memory outside the block is unchanged.
  pub pop_data_takes :
      IsApart c user size
      → size ≤ loop_cache_data_size c
      → let (s, m', c') = loop_cache_pop_data c m user size in
        (s ≡ true)
        × (contents m c ≡ bytes m' user size ++ contents m' c')
        × IsValid c'
        × ((a : ℕ) → (a < user) ⊎ (user + size ≤ a) → m' a ≡ m a)
  pop_data_takes u enough =
      rw (pop_data-copy_data c m user size)
        (copy_ok u enough, popped u enough, pop-IsValid v size, copy_frame u enough)

  -- On a valid ring, for a block apart from it: `loop_cache_copy_data` returns whether the ring holds
  -- `size` bytes; if it does, a prefix of the bytes held is in the block; the ring holds the same
  -- bytes as before either way.
  pub copy_data_reads :
      IsApart c user size
      → let (s, m') = loop_cache_copy_data c m user size in
        (s ≡ leb size (loop_cache_data_size c))
        × (contents m' c ≡ contents m c)
        × (s ≡ true → (rest : List ℕ) × (contents m c ≡ bytes m' user size ++ rest))
  copy_data_reads u = elim (dec_lt (loop_cache_data_size c) size) [
    | yes short ↦ rw (copy_short short) (ground arith, refl, λ e. cc)
    | no enough ↦
        let le : size ≤ loop_cache_data_size c = omega arith in
        (ground (arith, copy_ok u le), kept u le, λ e. (_, popped u le))
  ]

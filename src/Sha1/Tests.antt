-- ===== src/Sha1/Tests.antt =====
-- Known hashes, and the theorems at a message that crosses a block.
use libsvr.Common.{◌≡◌, refl, [], ◌∷◌}
use libsvr.Sha1.{
  Ctxt, sha1_init, sha1_step, step_if_full, sha1_loop, sha1_loop_from, take_chunk, copy_in, put_pad,
  put_pads, zero_fill, sha1_pad, sha1_result, sha1_format,
}

-- the context after 62 bytes
abbrev nearly_full : Ctxt
nearly_full = record sha1_init { c = 496; count = 62 }

-- FIPS 180-1, appendix A: "abc"
hash_abc :
    sha1_format (97 ∷ 98 ∷ 99 ∷ [])
    ≡ 0xa9 ∷ 0x99 ∷ 0x3e ∷ 0x36 ∷ 0x47 ∷ 0x06 ∷ 0x81 ∷ 0x6a ∷ 0xba ∷ 0x3e ∷ 0x25 ∷ 0x71 ∷ 0x78
      ∷ 0x50 ∷ 0xc2 ∷ 0x6c ∷ 0x9c ∷ 0xd0 ∷ 0xd8 ∷ 0x9d ∷ []
unfolding sha1_format sha1_result sha1_pad sha1_loop sha1_loop_from take_chunk copy_in step_if_full
    sha1_step put_pad put_pads zero_fill
hash_abc = refl

-- ===== src/Sha1.antt =====
-- SHA-1, src/sha_1.c, on a little-endian machine. A context is a record, its unions read as the
-- bytes of the block and as the words of the hash; `unsigned int` is a number below 2 ^ 32.
pub mod Bytes
pub mod Loop
mod Tests
use Prim.Native.Nat.{bit_and, bit_or, bit_xor}
use libsvr.Common.{
  ℕ, zero, suc, ◌+◌, ◌-◌, ◌*◌, ◌/◌, ◌%◌, ◌^◌, ltb, leb, ◌==◌, if◌then◌else◌, List, [], ◌∷◌, ◌++◌,
  length, take, drop, get_or, set, replicate,
}

-- `struct sha1_ctxt`: `c` is the number of bits taken, `m` the block, `count` the bytes in it.
pub record Ctxt : Type 0 where
  pub h : List ℕ
  pub c : ℕ
  pub m : List ℕ
  pub count : ℕ

-- `S(n, x)`
abbrev rotate : ℕ → ℕ → ℕ
rotate n x = bit_or (x * 2 ^ n % 2 ^ 32) (x / 2 ^ (32 - n))

-- `~x`
abbrev complement : ℕ → ℕ
complement x = 2 ^ 32 - 1 - x

-- `F0` to `F3`, by the round
round_function : ℕ → ℕ → ℕ → ℕ → ℕ
round_function t b c d =
    if ltb t 20
    then bit_or (bit_and b c) (bit_and (complement b) d)
    else if ltb t 40
    then bit_xor (bit_xor b c) d
    else if ltb t 60
    then bit_or (bit_or (bit_and b c) (bit_and b d)) (bit_and c d)
    else bit_xor (bit_xor b c) d

-- `K(t)`
abbrev round_constant : ℕ → ℕ
round_constant t = get_or (0x5a827999 ∷ 0x6ed9eba1 ∷ 0x8f1bbcdc ∷ 0xca62c1d6 ∷ []) (t / 20) 0

-- the words of a block, first byte highest: the bytes are swapped, then read as `b32`
words_of : List ℕ → List ℕ
words_of (p ∷ q ∷ r ∷ s ∷ rest) = (p * 2 ^ 24 + q * 2 ^ 16 + r * 2 ^ 8 + s) ∷ words_of rest
words_of rest = []

record Vars : Type 0 where
  a : ℕ
  b : ℕ
  c : ℕ
  d : ℕ
  e : ℕ
  w : List ℕ

-- `W(s)` at round `t`: from round 16 on the word is mixed anew first
scheduled : ℕ → List ℕ → List ℕ
scheduled t w =
    let s = t % 16 in
    let mixed =
      bit_xor (bit_xor (get_or w ((s + 13) % 16) 0) (get_or w ((s + 8) % 16) 0))
        (bit_xor (get_or w ((s + 2) % 16) 0) (get_or w s 0)) in
    if leb 16 t then set w s (rotate 1 mixed) else w

round : ℕ → Vars → Vars
unfolding round_function scheduled
round t v =
    let w' = scheduled t v.w in
    let tmp =
      (rotate 5 v.a + round_function t v.b v.c v.d + v.e + get_or w' (t % 16) 0 + round_constant t)
      % 2 ^ 32 in
    record { a = tmp; b = v.a; c = rotate 30 v.b; d = v.c; e = v.d; w = w' }

-- the rounds `t`, `t + 1`, …, `n` of them
rounds : ℕ → ℕ → Vars → Vars
rounds zero t v = v
rounds (suc n) t v = rounds n (t + 1) (round t v)

pub sha1_step : Ctxt → Ctxt
unfolding words_of round rounds
sha1_step s =
    let h = λ (i : ℕ). get_or s.h i 0 in
    let v =
      rounds 80 0 (record { a = h 0; b = h 1; c = h 2; d = h 3; e = h 4; w = words_of s.m }) in
    record s {
      h =
          (h 0 + v.a) % 2 ^ 32
          ∷ (h 1 + v.b) % 2 ^ 32
          ∷ (h 2 + v.c) % 2 ^ 32
          ∷ (h 3 + v.d) % 2 ^ 32
          ∷ (h 4 + v.e) % 2 ^ 32
          ∷ [];
      m = replicate 64 0;
    }

-- `_sha1_init`
abbrev pub sha1_init : Ctxt
sha1_init = record {
  h = 0x67452301 ∷ 0xefcdab89 ∷ 0x98badcfe ∷ 0x10325476 ∷ 0xc3d2e1f0 ∷ [];
  c = 0;
  m = replicate 64 0;
  count = 0;
}

-- `if (COUNT % 64 == 0) sha1_step(ctxt);`
pub step_if_full : Ctxt → Ctxt
step_if_full s = if s.count % 64 == 0 then sha1_step s else s

-- the macros `PUTBYTE` and `PUTPAD`
pub put_byte : Ctxt → ℕ → Ctxt
put_byte s x = step_if_full (record s {
  m = set s.m (s.count % 64) x;
  count = (s.count + 1) % 256 % 64;
  c = (s.c + 8) % 2 ^ 64;
})

pub put_pad : Ctxt → ℕ → Ctxt
put_pad s x =
    step_if_full (record s { m = set s.m (s.count % 64) x; count = (s.count + 1) % 256 % 64 })

-- `memcpy(&m[i], bytes, length bytes)`
pub copy_in : List ℕ → ℕ → List ℕ → List ℕ
copy_in m i [] = m
copy_in m i (x ∷ xs) = copy_in (set m i x) (i + 1) xs

-- one pass of the `while` of `sha1_loop`, on the `copysiz` bytes that it takes
pub take_chunk : Ctxt → List ℕ → Ctxt
take_chunk s chunk = step_if_full (record s {
  m = copy_in s.m (s.count % 64) chunk;
  count = (s.count + length chunk) % 256 % 64;
  c = (s.c + length chunk * 8) % 2 ^ 64;
})

-- The list is what is left of `input`, `off` being where it begins. Each pass takes a byte at least.
pub sha1_loop_from : ℕ → Ctxt → List ℕ → Ctxt
sha1_loop_from fuel s [] = s
sha1_loop_from zero s (x ∷ xs) = s
sha1_loop_from (suc fuel) s (x ∷ xs) =
    let gaplen = 64 - s.count % 64 in
    let left = length (x ∷ xs) in
    let copysiz = if ltb gaplen left then gaplen else left in
    sha1_loop_from fuel (take_chunk s (take copysiz (x ∷ xs))) (drop copysiz (x ∷ xs))

pub sha1_loop : Ctxt → List ℕ → Ctxt
sha1_loop s input = sha1_loop_from (length input) s input

-- the 8 bytes of `c`, highest first
abbrev pub length_bytes : ℕ → List ℕ
length_bytes c =
    c / 2 ^ 56 % 256
    ∷ c / 2 ^ 48 % 256
    ∷ c / 2 ^ 40 % 256
    ∷ c / 2 ^ 32 % 256
    ∷ c / 2 ^ 24 % 256
    ∷ c / 2 ^ 16 % 256
    ∷ c / 2 ^ 8 % 256
    ∷ c % 256
    ∷ []

pub put_pads : Ctxt → List ℕ → Ctxt
put_pads s [] = s
put_pads s (x ∷ xs) = put_pads (put_pad s x) xs

-- `memset(&m[padstart], 0, n)` and `COUNT += n; COUNT %= 64`
pub zero_fill : Ctxt → ℕ → Ctxt
zero_fill s n = record s {
  m = copy_in s.m (s.count % 64) (replicate n 0);
  count = (s.count + n) % 256 % 64;
}

pub sha1_pad : Ctxt → Ctxt
sha1_pad s =
    let s1 = put_pad s 0x80 in
    let padlen = 64 - s1.count % 64 in
    let s2 = if ltb padlen 8 then sha1_step (zero_fill s1 padlen) else s1 in
    let s3 = zero_fill s2 (64 - s2.count % 64 - 8) in put_pads s3 (length_bytes s3.c)

-- the bytes of the hash, the highest byte of each word first
digest_of : List ℕ → List ℕ
digest_of [] = []
digest_of (x ∷ xs) = x / 2 ^ 24 % 256 ∷ x / 2 ^ 16 % 256 ∷ x / 2 ^ 8 % 256 ∷ x % 256 ∷ digest_of xs

pub sha1_result : Ctxt → List ℕ
unfolding digest_of
sha1_result s = digest_of (sha1_pad s).h

pub sha1_format : List ℕ → List ℕ
sha1_format d = sha1_result (sha1_loop sha1_init d)

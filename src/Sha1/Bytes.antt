-- ===== src/Sha1/Bytes.antt =====
-- Taking a chunk is taking its bytes one by one.
use libsvr.Common.{
  ℕ, ◌+◌, ◌%◌, ◌^◌, ◌≤◌, ◌<◌, ◌≡◌, refl, ◌∙◌, arith, List, [], ◌∷◌, ◌++◌, length, set,
}
use libsvr.Sha1.{Ctxt, sha1_step, step_if_full, put_byte, copy_in, take_chunk}

unfoldable pub put_bytes : Ctxt → List ℕ → Ctxt
put_bytes s [] = s
put_bytes s (x ∷ xs) = put_bytes (put_byte s x) xs

-- The bytes in the block and the bits taken are in range.
pub record IsCounted (s : Ctxt) : Type 0 where
  pub count_small : s.count < 64
  pub bits_small : s.c < 2 ^ 64

sha1_step_counts : (s : Ctxt) → ((sha1_step s).count ≡ s.count) × ((sha1_step s).c ≡ s.c)
unfolding sha1_step
sha1_step_counts s = (refl, refl)

step_if_full-IsCounted : (s : Ctxt) → IsCounted s → IsCounted (step_if_full s)
unfolding step_if_full
step_if_full-IsCounted s v = ground (arith, sha1_step_counts s)

pub take_chunk-IsCounted : (s : Ctxt) (chunk : List ℕ) → IsCounted (take_chunk s chunk)
unfolding take_chunk
take_chunk-IsCounted s chunk = step_if_full-IsCounted _ (omega arith)

put_byte-chunk : (s : Ctxt) (x : ℕ) → put_byte s x ≡ take_chunk s (x ∷ [])
unfolding put_byte take_chunk copy_in
put_byte-chunk s x = refl

-- a byte that does not fill the block
put_byte_open :
    (s : Ctxt) (x : ℕ)
    → IsCounted s
    → s.count < 63
    → put_byte s x ≡ record s { m = set s.m s.count x; count = s.count + 1; c = (s.c + 8) % 2 ^ 64 }
unfolding put_byte step_if_full
put_byte_open s x v h = ground arith

take_chunk-cons :
    (s : Ctxt) (x : ℕ) (xs : List ℕ)
    → IsCounted s
    → s.count + length xs < 64
    → 0 < length xs
    → take_chunk
        (record s { m = set s.m s.count x; count = s.count + 1; c = (s.c + 8) % 2 ^ 64 })
        xs
      ≡ take_chunk s (x ∷ xs)
unfolding take_chunk copy_in
take_chunk-cons s x xs v h k = ground arith

pub put_bytes-chunk :
    (s : Ctxt) (x : ℕ) (xs : List ℕ)
    → IsCounted s
    → s.count + length (x ∷ xs) ≤ 64
    → put_bytes s (x ∷ xs) ≡ take_chunk s (x ∷ xs)
unfolding put_bytes
put_bytes-chunk s x [] v h = put_byte-chunk s x
put_bytes-chunk s x (y ∷ ys) v h = rw (put_byte_open s x v (omega arith)) (
    put_bytes-chunk
      (record s { m = set s.m s.count x; count = s.count + 1; c = (s.c + 8) % 2 ^ 64 }) y ys
      (omega arith) (omega arith)
    ∙ take_chunk-cons s x (y ∷ ys) v (omega arith) (omega arith))

pub put_bytes-append :
    (s : Ctxt) (xs ys : List ℕ) → put_bytes s (xs ++ ys) ≡ put_bytes (put_bytes s xs) ys
unfolding put_bytes
put_bytes-append s [] ys = refl
put_bytes-append s (x ∷ xs) ys = put_bytes-append (put_byte s x) xs ys

pub put_bytes-IsCounted : (s : Ctxt) (xs : List ℕ) → IsCounted s → IsCounted (put_bytes s xs)
unfolding put_bytes
put_bytes-IsCounted s [] v = v
put_bytes-IsCounted s (x ∷ xs) v =
    put_bytes-IsCounted (put_byte s x) xs
      (rw (put_byte-chunk s x) (take_chunk-IsCounted s (x ∷ [])))

-- ===== src/Sha1/Loop.antt =====
-- `sha1_loop` takes its input block by block, as if byte by byte.
use libsvr.Common.{
  ℕ, zero, suc, ◌+◌, ◌-◌, ◌%◌, ◌≤◌, ◌<◌, ◌≡◌, refl, sym, ap, ◌∙◌, arith, ltb, if◌then◌else◌, List,
  [], ◌∷◌, ◌++◌, length, take, drop, take-append-drop, length-drop, length-take,
}
use libsvr.Sha1.{Ctxt, take_chunk, sha1_loop_from, sha1_loop}
use libsvr.Sha1.Bytes.{
  put_bytes, IsCounted, take_chunk-IsCounted, put_bytes-chunk, put_bytes-append,
  put_bytes-IsCounted,
}

-- a chunk of at least one byte that fits the block
chunk_lem :
    (s : Ctxt) (chunk : List ℕ)
    → IsCounted s
    → 0 < length chunk
    → s.count + length chunk ≤ 64
    → put_bytes s chunk ≡ take_chunk s chunk
chunk_lem s [] v k h = absurd (omega arith)
chunk_lem s (x ∷ xs) v k h = put_bytes-chunk s x xs v h

loop-put_bytes :
    (fuel : ℕ) (s : Ctxt) (input : List ℕ)
    → IsCounted s
    → length input ≤ fuel
    → sha1_loop_from fuel s input ≡ put_bytes s input
unfolding sha1_loop_from
loop-put_bytes fuel s [] v h = unfold put_bytes in refl
loop-put_bytes zero s (x ∷ xs) v h = absurd (omega arith)
loop-put_bytes (suc fuel) s (x ∷ xs) v h =
    loop-put_bytes fuel (take_chunk s (take n l)) (drop n l) (take_chunk-IsCounted s (take n l))
      (omega (arith, length-drop n l, n_pos))
    ∙ ap (λ t. put_bytes t (drop n l))
        (sym (
          chunk_lem s (take n l) v (omega (arith, length-take n l, n_pos))
            (omega (arith, length-take n l, n_pos))))
    ∙ sym (put_bytes-append s (take n l) (drop n l))
    ∙ ap (put_bytes s) (take-append-drop n l)
  where
    l : List ℕ
    l = x ∷ xs

    n : ℕ
    n = if ltb (64 - s.count % 64) (length l) then 64 - s.count % 64 else length l

    n_pos : (0 < n) × (n ≤ length l) × (s.count + n ≤ 64)
    n_pos = ground arith

pub sha1_loop-put_bytes :
    (s : Ctxt) (input : List ℕ) → IsCounted s → sha1_loop s input ≡ put_bytes s input
unfolding sha1_loop
sha1_loop-put_bytes s input v = loop-put_bytes (length input) s input v (omega arith)

-- Cutting the input in two changes nothing: the hash of a message may be taken part by part.
pub sha1_loop-append :
    (s : Ctxt) (xs ys : List ℕ)
    → IsCounted s
    → sha1_loop s (xs ++ ys) ≡ sha1_loop (sha1_loop s xs) ys
sha1_loop-append s xs ys v =
    sha1_loop-put_bytes s (xs ++ ys) v
    ∙ put_bytes-append s xs ys
    ∙ sym (sha1_loop-put_bytes (put_bytes s xs) ys (put_bytes-IsCounted s xs v))
    ∙ ap (λ t. sha1_loop t ys) (sym (sha1_loop-put_bytes s xs v))

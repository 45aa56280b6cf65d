-- ===== src/Utility/Search/Sound.antt =====
-- What `memmem_s` finds, and what it does not.
use libsvr.Common.{
  ℕ, zero, suc, ◌≡◌, ◌≢◌, ◌≤◌, ◌<◌, ◌⊎◌, inl, inr, refl, sym, ap, subst, ◌∙◌, arith, true, false,
  none, some, Bool-cases, Option-cases, ltb, dec_lt, length-append, ◌==◌, if◌then◌else◌, List, [],
  ◌∷◌, ◌++◌, length, drop, take, All, ==_iff, length-drop, take-append-drop,
}
use libsvr.Utility.Search.{
  memchr, memcmp_same, found, absent, stuck, memmem_loop, memmem_s, of_pointer,
}
use mathlib.Core.List.{append_assoc}

pub memchr_sound :
    (p : List ℕ) (c : ℕ) {q : List ℕ}
    → memchr p c ≡ some q
    → (front rest : List ℕ) × (p ≡ front ++ q) × (q ≡ c ∷ rest) × All (λ x. x ≢ c) front
unfolding memchr
memchr_sound [] c e = cc
memchr_sound (x ∷ xs) c e = elim (Bool-cases (x == c)) [
  | inl hit ↦ ([], xs, cc (rw hit at e), cc (rw hit at e, (==_iff x c).0 hit), tt)
  | inr miss ↦
      let (front, rest, a, b, d) = memchr_sound xs c (rw miss at e) in
      (x ∷ front, rest, ap (λ ys. x ∷ ys) a, b, (ground arith, d))
]

memchr-none : (p : List ℕ) (c : ℕ) → memchr p c ≡ none → All (λ x. x ≢ c) p
unfolding memchr
memchr-none [] c e = tt
memchr-none (x ∷ xs) c e = ground (arith, memchr-none xs c)

memcmp_same_sound : (n : ℕ) (p q : List ℕ) → memcmp_same n p q ≡ true → take n p ≡ take n q
unfolding memcmp_same
memcmp_same_sound zero p q e = refl
memcmp_same_sound (suc n) [] q e = cc
memcmp_same_sound (suc n) (x ∷ p) [] e = cc
memcmp_same_sound (suc n) (x ∷ p) (y ∷ q) e = ground (arith, memcmp_same_sound n p q)

-- `q` is a pointer into `p`, at which `n` bytes of `needle` stand.
pub record Hit (p needle : List ℕ) (n : ℕ) (q : List ℕ) : Type 0 where
  pub front : List ℕ
  pub whole : p ≡ front ++ q
  pub same : take n q ≡ take n needle
  pub room : n ≤ length q

module _ (fuel : ℕ) (p : List ℕ) (c : ℕ) (cs : List ℕ) (n : ℕ) where
  loop_none : memchr p c ≡ none → memmem_loop (suc fuel) p c cs n ≡ absent
  unfolding memmem_loop
  loop_none m = rw (m, memmem_loop)

  loop_some :
      (r : List ℕ)
      → memchr p c ≡ some r
      → memmem_loop (suc fuel) p c cs n ≡ (
          if ltb (length r) n
          then absent
          else if memcmp_same n r (c ∷ cs)
          then found r
          else memmem_loop fuel (drop n r) c cs n)
  unfolding memmem_loop
  loop_some r m = rw (m, memmem_loop)

Hit-later :
    {p q needle : List ℕ} (n : ℕ) (front r : List ℕ)
    → p ≡ front ++ r
    → Hit (drop n r) needle n q
    → Hit p needle n q
Hit-later {q = q} n front r e h = record {
  front = front ++ (take n r ++ h.front);
  whole = e ∙ ap (λ ys. front ++ ys) back ∙ sym (append_assoc front _ q);
  same = h.same;
  room = h.room;
}
  where
    back : r ≡ (take n r ++ h.front) ++ q
    back = sym (take-append-drop n r) ∙ ap (λ ys. take n r ++ ys) h.whole ∙ sym (append_assoc _ _ q)

memmem_loop-Hit :
    (fuel : ℕ) (p : List ℕ) (c : ℕ) (cs : List ℕ) (n : ℕ) {q : List ℕ}
    → memmem_loop fuel p c cs n ≡ found q
    → Hit p (c ∷ cs) n q
memmem_loop-Hit zero p c cs n e = unfold memmem_loop in cc
memmem_loop-Hit (suc fuel) p c cs n {q} e = elim (Option-cases (memchr p c)) [
  | inl m ↦ cc (loop_none fuel p c cs n m)
  | inr (r, m) ↦
      let (front, rest, a, b, d) = memchr_sound p c m in
      let e' = sym (loop_some fuel p c cs n r m) ∙ e in
      elim (Bool-cases (ltb (length r) n)) [
        | inl short ↦ cc (rw short at e')
        | inr long ↦ elim (Bool-cases (memcmp_same n r (c ∷ cs))) [
          | inl hit ↦
              let same : r ≡ q = cc (rw (long, hit) at e') in
              subst (Hit p (c ∷ cs) n) same (record {
                front = front;
                whole = a;
                same = memcmp_same_sound n r (c ∷ cs) hit;
                room = ground arith;
              })
          | inr miss ↦
              Hit-later n front r a (memmem_loop-Hit fuel (drop n r) c cs n (rw (long, miss) at e'))
        ]
      ]
]

take_short :
    (n c : ℕ) (xs ys : List ℕ) → n ≤ 1 → (take n (c ∷ xs) ≡ take n (c ∷ ys)) × (n ≤ length (c ∷ xs))
take_short zero c xs ys h = (refl, omega arith)
take_short (suc zero) c xs ys h = (refl, omega arith)
take_short (suc (suc n)) c xs ys h = absurd (omega arith)

memmem_s_short :
    (p : List ℕ) (c : ℕ) (cs : List ℕ) (n : ℕ) → n ≤ 1 → memmem_s p c cs n ≡ of_pointer (memchr p c)
unfolding memmem_s
memmem_s_short p c cs n h = ground arith

memmem_s_long :
    (p : List ℕ) (c : ℕ) (cs : List ℕ) (n : ℕ)
    → 1 < n
    → memmem_s p c cs n ≡ memmem_loop (suc (length p)) p c cs n
unfolding memmem_s
memmem_s_long p c cs n h = ground arith

-- A non-null result of `memmem_s` points into the block at `needlelen` bytes that are the needle's.
pub memmem_s-Hit :
    (p : List ℕ) (c : ℕ) (cs : List ℕ) (n : ℕ) {q : List ℕ}
    → memmem_s p c cs n ≡ found q
    → Hit p (c ∷ cs) n q
memmem_s-Hit p c cs n {q} e = elim (dec_lt 1 n) [
  | yes long ↦ memmem_loop-Hit _ p c cs n (sym (memmem_s_long p c cs n long) ∙ e)
  | no short ↦
      let e' = sym (memmem_s_short p c cs n (omega arith)) ∙ e in
      elim (Option-cases (memchr p c)) [
        | inl m ↦ unfold of_pointer in cc (rw m at e')
        | inr (r, m) ↦
            let (front, rest, a, b, d) = memchr_sound p c m in
            let same : r ≡ q = unfold of_pointer in cc (rw m at e') in
            let (t, l) = take_short n c rest cs (omega arith) in
            record {
              front = front;
              whole = a ∙ ap (λ ys. front ++ ys) same;
              same = rw (← same, b) t;
              room = rw (← same, b) l;
            }
      ]
]

memmem_loop-ne-stuck :
    (fuel : ℕ) (p : List ℕ) (c : ℕ) (cs : List ℕ) (n : ℕ)
    → length p < fuel
    → 0 < n
    → memmem_loop fuel p c cs n ≢ stuck
memmem_loop-ne-stuck zero p c cs n h k e = absurd (omega arith)
memmem_loop-ne-stuck (suc fuel) p c cs n h k e = elim (Option-cases (memchr p c)) [
  | inl m ↦ cc (loop_none fuel p c cs n m)
  | inr (r, m) ↦
      let (front, rest, a, b, d) = memchr_sound p c m in
      ground (
        arith,
        loop_some fuel p c cs n r m,
        memmem_loop-ne-stuck fuel (drop n r) c cs n,
        length-drop n r,
        ap length a,
        length-append front r,
      )
]

-- `memmem_s` returns on every input: its loop ends.
pub memmem_s-ne-stuck : (p : List ℕ) (c : ℕ) (cs : List ℕ) (n : ℕ) → memmem_s p c cs n ≢ stuck
unfolding memmem_s of_pointer
memmem_s-ne-stuck p c cs n = ground (arith, memmem_loop-ne-stuck (suc (length p)) p c cs n)

-- For a needle of one byte the result is the first place of that byte, and null only if the block
-- does not hold it.
pub memmem_s_first :
    (p : List ℕ) (c : ℕ) (cs : List ℕ)
    → ((memmem_s p c cs 1 ≡ absent) × All (λ x. x ≢ c) p)
      ⊎ ((front rest : List ℕ) × (memmem_s p c cs 1 ≡ found (c ∷ rest))
          × (p ≡ front ++ (c ∷ rest))
          × All (λ x. x ≢ c) front)
memmem_s_first p c cs = elim (Option-cases (memchr p c)) [
  | inl m ↦ inl (short ∙ unfold of_pointer in rw m refl, memchr-none p c m)
  | inr (r, m) ↦
      let (front, rest, a, b, d) = memchr_sound p c m in
      inr (front, rest, short ∙ unfold of_pointer in rw (m, b) refl, rw (← b) a, d)
]
  where
    short : memmem_s p c cs 1 ≡ of_pointer (memchr p c)
    short = memmem_s_short p c cs 1 (omega arith)

-- A needle of two different bytes behind a copy of its first byte is not found where it stands: the
-- search goes on behind the mismatch by the length of the needle.
pub memmem_s_misses :
    (c d : ℕ) (rest : List ℕ)
    → c ≢ d
    → memmem_s (c ∷ c ∷ d ∷ rest) c (d ∷ []) 2 ≢ found (c ∷ d ∷ rest)
memmem_s_misses c d rest h e = omega (arith, ap length whole, length-append front (c ∷ d ∷ rest))
  where
    first : memchr (c ∷ c ∷ d ∷ rest) c ≡ some (c ∷ c ∷ d ∷ rest)
    first = unfold memchr in ground arith

    differs : memcmp_same 2 (c ∷ c ∷ d ∷ rest) (c ∷ d ∷ []) ≡ false
    differs = unfold memcmp_same in ground arith

    next :
        memmem_loop (suc (suc (suc (length rest)))) (d ∷ rest) c (d ∷ []) 2 ≡ found (c ∷ d ∷ rest)
    next = ground (
      arith,
      differs,
      memmem_s_long (c ∷ c ∷ d ∷ rest) c (d ∷ []) 2 (omega arith),
      loop_some (suc (suc (suc (length rest)))) (c ∷ c ∷ d ∷ rest) c (d ∷ []) 2 (c ∷ c ∷ d ∷ rest)
          first,
    )

    hit : Hit (d ∷ rest) (c ∷ d ∷ []) 2 (c ∷ d ∷ rest)
    hit = memmem_loop-Hit _ (d ∷ rest) c (d ∷ []) 2 next

    front : List ℕ
    front = hit.front

    whole : d ∷ rest ≡ front ++ (c ∷ d ∷ rest)
    whole = hit.whole

-- ===== src/Utility/Utf8/Equivalence.antt =====
-- `is_valid_utf8` and the texts.
use libsvr.Common.{
  ℕ, dec_lt, zero, suc, ◌≤◌, ◌<◌, ◌≡◌, ◌⊎◌, ◌↔◌, inl, inr, refl, sym, ap, ◌∙◌, arith, Bool-cases,
  Option-cases, List, [], ◌∷◌, ◌++◌, length, drop, ltb, ltb→lt, lt→ltb, subst, some, Bool, true,
  All,
}
use libsvr.Utility.Utf8.{four_ascii, skip_ascii, sequence, after_ascii, utf8_loop, is_valid_utf8}
use libsvr.Utility.Utf8.Scalar.{
  IsByte, IsScalar, IsText, encode, encode_all, encode_two, encode_three, encode_four, sequence_two,
  sequence_three, sequence_four, sequence_text,
}

ascii-IsText : (a : ℕ) (s : List ℕ) → a < 128 → IsText s → IsText (a ∷ s)
unfolding encode_all
ascii-IsText a s l (cs, all, e) =
    (a ∷ cs, (inl (omega arith), all), rw (lt→ltb a 0x80 l) (ap (λ s. a ∷ s) e))

skip-IsText : (s : List ℕ) → IsText (skip_ascii s) → IsText s
unfolding skip_ascii
skip-IsText [] h = h
skip-IsText (a ∷ s) h = elim (Bool-cases (ltb a 128)) [
  | inl ascii ↦ ascii-IsText a s (ltb→lt a 128 ascii) (skip-IsText s (rw ascii at h))
  | inr other ↦ rw other at h
]

four-IsText : (s : List ℕ) → four_ascii s ≡ true → IsText (drop 4 s) → IsText s
unfolding four_ascii
four-IsText [] f h = absurd (ground arith)
four-IsText (a ∷ []) f h = absurd (ground arith)
four-IsText (a ∷ b ∷ []) f h = absurd (ground arith)
four-IsText (a ∷ b ∷ c ∷ []) f h = absurd (ground arith)
four-IsText (a ∷ b ∷ c ∷ d ∷ s) f h =
    let (k, l, m, n) : (a < 128) × (b < 128) × (c < 128) × (d < 128) = ground arith in
    ascii-IsText a _ k (ascii-IsText b _ l (ascii-IsText c _ m (ascii-IsText d s n h)))

suffix-IsByte : (xs ys : List ℕ) → All IsByte (xs ++ ys) → All IsByte ys
suffix-IsByte [] ys h = h
suffix-IsByte (x ∷ xs) ys (h, hs) = suffix-IsByte xs ys hs

drop-IsByte : (n : ℕ) (s : List ℕ) → All IsByte s → All IsByte (drop n s)
drop-IsByte zero s h = h
drop-IsByte (suc n) [] h = h
drop-IsByte (suc n) (a ∷ s) (h, hs) = drop-IsByte n s hs

skip-IsByte : (s : List ℕ) → All IsByte s → All IsByte (skip_ascii s)
unfolding skip_ascii
skip-IsByte [] h = h
skip-IsByte (a ∷ s) (h, hs) = elim (Bool-cases (ltb a 128)) [
  | inl ascii ↦ rw ascii (skip-IsByte s hs)
  | inr other ↦ rw other (h, hs)
]

-- what follows ASCII bytes does not begin with one
skip_head : (s : List ℕ) (b : ℕ) (rest : List ℕ) → skip_ascii s ≡ b ∷ rest → 128 ≤ b
unfolding skip_ascii
skip_head [] b rest h = absurd (ground arith)
skip_head (a ∷ s) b rest h = elim (Bool-cases (ltb a 128)) [
  | inl ascii ↦ skip_head s b rest (rw ascii at h)
  | inr other ↦ ground arith
]

after_sound :
    (again : List ℕ → Bool)
    → ((s : List ℕ) → All IsByte s → again s ≡ true → IsText s)
    → (r : List ℕ) → All IsByte r
    → ((b : ℕ) (rest : List ℕ) → r ≡ b ∷ rest → 128 ≤ b)
    → after_ascii again r ≡ true
    → IsText r
unfolding after_ascii encode_all
after_sound again ih [] bs l h = ([], tt, refl)
after_sound again ih (b ∷ rest) (k, bs) l h = elim (Option-cases (sequence b rest)) [
  | inl e ↦ absurd (ground arith)
  | inr (later, e) ↦
      let (c, scalar, f) = sequence_text b later k rest bs (l b rest refl) e in
      let bytes = suffix-IsByte (encode c) later (subst (All IsByte) f (k, bs)) in
      let (cs, all, g) = ih later bytes (rw (after_ascii, e) at h) in
      (c ∷ cs, (scalar, all), ap (λ s. encode c ++ s) g ∙ sym f)
]

pub loop_sound : (fuel : ℕ) (s : List ℕ) → All IsByte s → utf8_loop fuel s ≡ true → IsText s
unfolding utf8_loop encode_all
loop_sound fuel [] bs h = ([], tt, refl)
loop_sound zero (a ∷ s) bs h = absurd (ground arith)
loop_sound (suc fuel) (a ∷ s) bs h = elim (Bool-cases (four_ascii (a ∷ s))) [
  | inl f ↦
      four-IsText (a ∷ s) f
        (loop_sound fuel (drop 4 (a ∷ s)) (drop-IsByte 4 (a ∷ s) bs) (rw (utf8_loop, f) at h))
  | inr f ↦ skip-IsText (a ∷ s) (
      after_sound (utf8_loop fuel) (loop_sound fuel) (skip_ascii (a ∷ s)) (skip-IsByte (a ∷ s) bs)
        (skip_head (a ∷ s)) (rw (utf8_loop, f) at h))
]

abbrev head_of : List ℕ → ℕ
head_of [] = 0
head_of (a ∷ s) = a

-- how a code point begins, before `rest`
Begins : ℕ → List ℕ → Type 0
Begins c rest =
    ((c < 128) × (encode c ++ rest ≡ c ∷ rest))
    ⊎ ((a : ℕ) × (s : List ℕ) × (192 ≤ a)
        × (encode c ++ rest ≡ a ∷ s)
        × (sequence a s ≡ some rest)
        × (length rest ≤ length s))

encode-Begins : (c : ℕ) (rest : List ℕ) → IsScalar c → Begins c rest
unfolding Begins
encode-Begins c rest scalar = elim (dec_lt c 128) [
  | yes k ↦ inl (k, rw (lt→ltb c 0x80 k) refl)
  | no l ↦ elim (dec_lt c 0x800) [
    | yes k ↦ inr (
      _,
      _,
      omega arith,
      ap (λ xs. xs ++ rest) (encode_two c (omega arith) k),
      sequence_two c rest scalar (omega arith) k,
      omega arith,
    )
    | no m ↦ elim (dec_lt c 0x10000) [
      | yes k ↦ inr (
        _,
        _,
        omega arith,
        ap (λ xs. xs ++ rest) (encode_three c (omega arith) k),
        sequence_three c rest scalar (omega arith) k,
        omega arith,
      )
      | no n ↦ inr (
        _,
        _,
        omega arith,
        ap (λ xs. xs ++ rest) (encode_four c (omega arith)),
        sequence_four c rest scalar (omega arith),
        omega arith,
      )
    ]
  ]
]

-- a text whose first byte is ASCII goes on as a text
ascii_tail : (a : ℕ) (s : List ℕ) → a < 128 → IsText (a ∷ s) → IsText s
unfolding encode_all Begins
ascii_tail a s l ([], all, e) = absurd (ground arith)
ascii_tail a s l (c ∷ cs, (scalar, all), e) = elim (encode-Begins c (encode_all cs) scalar) [
  | inl (k, f) ↦ (cs, all, ap (λ xs. drop 1 xs) (sym f ∙ e))
  | inr (a', s', k, f, g, n) ↦ let same : a' ≡ a = ap head_of (sym f ∙ e) in absurd (omega arith)
]

-- one that begins with another byte is one sequence and a shorter text
sequence_tail :
    (b : ℕ) (rest : List ℕ)
    → 128 ≤ b
    → IsText (b ∷ rest)
    → (later : List ℕ) × (sequence b rest ≡ some later)
      × IsText later
      × (length later ≤ length rest)
unfolding encode_all Begins
sequence_tail b rest l ([], all, e) = absurd (ground arith)
sequence_tail b rest l (c ∷ cs, (scalar, all), e) = elim (encode-Begins c (encode_all cs) scalar) [
  | inl (k, f) ↦ let same : c ≡ b = ap head_of (sym f ∙ e) in absurd (omega arith)
  | inr (a, s, k, f, g, n) ↦
      let first : a ≡ b = ap head_of (sym f ∙ e) in
      let others : s ≡ rest = ap (λ xs. drop 1 xs) (sym f ∙ e) in
      (
        encode_all cs,
        subst (λ s. sequence b s ≡ some (encode_all cs)) others
            (subst (λ a. sequence a s ≡ some (encode_all cs)) first g),
        (cs, all, refl),
        subst (λ s. length (encode_all cs) ≤ length s) others n,
      )
]

skip_shrinks : (s : List ℕ) → IsText s → IsText (skip_ascii s) × (length (skip_ascii s) ≤ length s)
unfolding skip_ascii
skip_shrinks [] h = (h, omega arith)
skip_shrinks (a ∷ s) h = elim (Bool-cases (ltb a 128)) [
  | inl ascii ↦
      let (t, n) = skip_shrinks s (ascii_tail a s (ltb→lt a 128 ascii) h) in
      rw ascii (t, omega arith)
  | inr other ↦ rw other (h, omega arith)
]

four_shrinks :
    (s : List ℕ)
    → four_ascii s ≡ true
    → IsText s
    → IsText (drop 4 s) × (length (drop 4 s) < length s)
unfolding four_ascii
four_shrinks [] f h = absurd (ground arith)
four_shrinks (a ∷ []) f h = absurd (ground arith)
four_shrinks (a ∷ b ∷ []) f h = absurd (ground arith)
four_shrinks (a ∷ b ∷ c ∷ []) f h = absurd (ground arith)
four_shrinks (a ∷ b ∷ c ∷ d ∷ s) f h =
    let (k, l, m, n) : (a < 128) × (b < 128) × (c < 128) × (d < 128) = ground arith in
    (ascii_tail d s n (ascii_tail c _ m (ascii_tail b _ l (ascii_tail a _ k h))), omega arith)

after_complete :
    (fuel : ℕ)
    → ((s : List ℕ) → length s ≤ fuel → IsText s → utf8_loop fuel s ≡ true)
    → (r : List ℕ) → length r ≤ suc fuel
    → IsText r
    → ((b : ℕ) (rest : List ℕ) → r ≡ b ∷ rest → 128 ≤ b)
    → after_ascii (utf8_loop fuel) r ≡ true
unfolding after_ascii
after_complete fuel ih [] n h l = refl
after_complete fuel ih (b ∷ rest) n h l =
    let (later, e, t, k) = sequence_tail b rest (l b rest refl) h in
    rw (after_ascii, e) (ih later (omega arith) t)

pub loop_complete : (fuel : ℕ) (s : List ℕ) → length s ≤ fuel → IsText s → utf8_loop fuel s ≡ true
unfolding utf8_loop
loop_complete fuel [] n h = refl
loop_complete zero (a ∷ s) n h = absurd (omega arith)
loop_complete (suc fuel) (a ∷ s) n h = elim (Bool-cases (four_ascii (a ∷ s))) [
  | inl f ↦
      let (t, k) = four_shrinks (a ∷ s) f h in
      rw (utf8_loop, f) (loop_complete fuel (drop 4 (a ∷ s)) (omega arith) t)
  | inr f ↦
      let (t, k) = skip_shrinks (a ∷ s) h in
      rw (utf8_loop, f)
        (after_complete fuel (loop_complete fuel) (skip_ascii (a ∷ s)) (omega arith) t
          (skip_head (a ∷ s)))
]

-- On bytes, is_valid_utf8 returns true exactly if they are the encodings, one after the other, of
-- Unicode scalar values (up to 0x10FFFF, no surrogate, each in its shortest form).
pub is_valid_utf8-IsText : (s : List ℕ) → All IsByte s → (is_valid_utf8 s ≡ true) ↔ IsText s
unfolding is_valid_utf8
is_valid_utf8-IsText s bytes =
    (loop_sound (length s) s bytes, loop_complete (length s) s (omega arith))

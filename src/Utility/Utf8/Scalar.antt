-- ===== src/Utility/Utf8/Scalar.antt =====
-- What `is_valid_utf8` accepts: the bytes of some Unicode scalar values.
use libsvr.Common.{
  ℕ, ==_iff, ◌+◌, ◌*◌, ◌/◌, ◌%◌, ◌≤◌, ◌<◌, ◌≡◌, ◌⊎◌, inl, inr, refl, arith, Bool-cases, List, [],
  ◌∷◌, ◌++◌, ltb, ◌==◌, if◌then◌else◌, Option, none, some, All,
}
use libsvr.Utility.Utf8.{two, three, four, sequence}

abbrev pub IsByte : ℕ → Type 0
IsByte b = b < 256

-- a code point that is no surrogate
abbrev pub IsScalar : ℕ → Type 0
IsScalar c = (c < 0xd800) ⊎ ((0xe000 ≤ c) × (c < 0x110000))

-- the bytes of a code point, by the table of RFC 3629
abbrev pub encode : ℕ → List ℕ
encode c =
    if ltb c 0x80
    then c ∷ []
    else if ltb c 0x800
    then (192 + c / 64) ∷ (128 + c % 64) ∷ []
    else if ltb c 0x10000
    then (224 + c / 4096) ∷ (128 + c / 64 % 64) ∷ (128 + c % 64) ∷ []
    else (240 + c / 262144) ∷ (128 + c / 4096 % 64) ∷ (128 + c / 64 % 64) ∷ (128 + c % 64) ∷ []

unfoldable pub encode_all : List ℕ → List ℕ
encode_all [] = []
encode_all (c ∷ cs) = encode c ++ encode_all cs

abbrev pub IsText : List ℕ → Type 0
IsText s = (cs : List ℕ) × All IsScalar cs × (encode_all cs ≡ s)

abbrev pub step : List ℕ → Option (List ℕ)
step [] = none
step (a ∷ s) = sequence a s

pub encode_two : (c : ℕ) → 128 ≤ c → c < 0x800 → encode c ≡ (192 + c / 64) ∷ (128 + c % 64) ∷ []
encode_two c l h = ground arith

pub encode_three :
    (c : ℕ)
    → 0x800 ≤ c
    → c < 0x10000
    → encode c ≡ (224 + c / 4096) ∷ (128 + c / 64 % 64) ∷ (128 + c % 64) ∷ []
encode_three c l h = ground arith

pub encode_four :
    (c : ℕ)
    → 0x10000 ≤ c
    → encode c
      ≡ (240 + c / 262144) ∷ (128 + c / 4096 % 64) ∷ (128 + c / 64 % 64) ∷ (128 + c % 64) ∷ []
encode_four c l = ground arith

module _ (c : ℕ) (rest : List ℕ) (scalar : IsScalar c) where
  pub sequence_two :
      128 ≤ c → c < 0x800 → sequence (192 + c / 64) ((128 + c % 64) ∷ rest) ≡ some rest
  unfolding sequence
  sequence_two l h = ground arith

  pub sequence_three :
      0x800 ≤ c
      → c < 0x10000
      → sequence (224 + c / 4096) ((128 + c / 64 % 64) ∷ (128 + c % 64) ∷ rest) ≡ some rest
  unfolding sequence
  sequence_three l h = ground arith

  pub sequence_four :
      0x10000 ≤ c
      → sequence
          (240 + c / 262144)
          ((128 + c / 4096 % 64) ∷ (128 + c / 64 % 64) ∷ (128 + c % 64) ∷ rest)
        ≡ some rest
  unfolding sequence
  sequence_four l = ground arith

-- the code point of one sequence that is accepted
abbrev pub IsSequence : ℕ → List ℕ → List ℕ → Type 0
IsSequence a s later = (c : ℕ) × IsScalar c × (a ∷ s ≡ encode c ++ later)

module _ (a : ℕ) (later : List ℕ) (byte : IsByte a) where
  two_text :
      (s : List ℕ)
      → All IsByte s
      → 128 ≤ a
      → a / 32 % 4 ≡ 2
      → two a s ≡ some later
      → IsSequence a s later
  two_text [] bs l e r = absurd (ground arith)
  two_text (b ∷ s) (k, bs) l e r =
      let c = a % 32 * 64 + b % 64 in
      let (u, v, x, y, z) : (128 ≤ c)
          × (c < 0x800)
          × (192 + c / 64 ≡ a)
          × (128 + c % 64 ≡ b)
          × (s ≡ later) =
        ground arith in
      (c, inl (omega arith), rw (encode_two c u v, x, y, z) refl)

  three_text :
      (s : List ℕ)
      → All IsByte s
      → 128 ≤ a
      → a / 16 ≡ 14
      → three a s ≡ some later
      → IsSequence a s later
  three_text [] bs l e r = absurd (ground arith)
  three_text (b ∷ []) bs l e r = absurd (ground arith)
  three_text (b ∷ b' ∷ s) (k, (k', bs)) l e r =
      let c = a % 16 * 4096 + b % 64 * 64 + b' % 64 in
      let (scalar, u, v, x, y, y', z) : IsScalar c
          × (0x800 ≤ c)
          × (c < 0x10000)
          × (224 + c / 4096 ≡ a)
          × (128 + c / 64 % 64 ≡ b)
          × (128 + c % 64 ≡ b')
          × (s ≡ later) =
        ground arith in
      (c, scalar, rw (encode_three c u v, x, y, y', z) refl)

  four_text :
      (s : List ℕ) → All IsByte s → a / 8 ≡ 30 → four a s ≡ some later → IsSequence a s later
  four_text [] bs e r = absurd (ground arith)
  four_text (b ∷ []) bs e r = absurd (ground arith)
  four_text (b ∷ b' ∷ []) bs e r = absurd (ground arith)
  four_text (b ∷ b' ∷ b'' ∷ s) (k, (k', (k'', bs))) e r =
      let c = a % 8 * 262144 + b % 64 * 4096 + b' % 64 * 64 + b'' % 64 in
      let (u, v, x, y, y', y'', z) : (0x10000 ≤ c)
          × (c < 0x110000)
          × (240 + c / 262144 ≡ a)
          × (128 + c / 4096 % 64 ≡ b)
          × (128 + c / 64 % 64 ≡ b')
          × (128 + c % 64 ≡ b'')
          × (s ≡ later) =
        ground arith in
      (c, inr (omega arith, v), rw (encode_four c u, x, y, y', y'', z) refl)

  pub sequence_text :
      (s : List ℕ) → All IsByte s → 128 ≤ a → sequence a s ≡ some later → IsSequence a s later
  unfolding sequence
  sequence_text s bs l r = elim (Bool-cases (a / 32 % 4 == 2)) [
    | inl two ↦ two_text s bs l ((==_iff _ 2).0 two) (rw two at r)
    | inr other ↦ elim (Bool-cases (a / 16 == 14)) [
      | inl three ↦ three_text s bs l ((==_iff _ 14).0 three) (rw (other, three) at r)
      | inr other' ↦ elim (Bool-cases (a / 8 == 30)) [
        | inl four ↦ four_text s bs ((==_iff _ 30).0 four) (rw (other, other', four) at r)
        | inr other'' ↦ absurd (ground arith)
      ]
    ]
  ]

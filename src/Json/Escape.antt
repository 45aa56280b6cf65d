-- ===== src/Json/Escape.antt =====
-- Escaping and unescaping are inverse, and an escaped text is one string token.
use libsvr.Common.{
  ℕ, zero, suc, ◌*◌, ◌≤◌, ◌≡◌, ◌≢◌, refl, sym, ap, ◌∙◌, arith, none, some, ◌⊎◌, inl, inr,
  ℕ_discrete, List, [], ◌∷◌, ◌++◌, length, All,
}
use libsvr.Json.{
  escape_byte, append_piece, escape_to, escape_to_json_append, unescape_byte, escape_from,
  step_string,
}

-- A byte is copied, or written as a `\` and a letter that stands for it.
escape_byte_cases :
    (x : ℕ)
    → ((escape_byte x ≡ x ∷ []) × (x ≢ b'\\') × (x ≢ b'"'))
      ⊎ ((y : ℕ) × (escape_byte x ≡ b'\\' ∷ y ∷ []) × (unescape_byte y ≡ some x))
unfolding escape_byte unescape_byte
escape_byte_cases x = elim (ℕ_discrete x b'\\') [
  | yes e ↦ inr (b'\\', ground arith, ground arith)
  | no n0 ↦ elim (ℕ_discrete x b'/') [
    | yes e ↦ inr (b'/', ground arith, ground arith)
    | no n1 ↦ elim (ℕ_discrete x b'"') [
      | yes e ↦ inr (b'"', ground arith, ground arith)
      | no n2 ↦ elim (ℕ_discrete x 9) [
        | yes e ↦ inr (b't', ground arith, ground arith)
        | no n3 ↦ elim (ℕ_discrete x 12) [
          | yes e ↦ inr (b'f', ground arith, ground arith)
          | no n4 ↦ elim (ℕ_discrete x 8) [
            | yes e ↦ inr (b'b', ground arith, ground arith)
            | no n5 ↦ elim (ℕ_discrete x 10) [
              | yes e ↦ inr (b'n', ground arith, ground arith)
              | no n6 ↦ elim (ℕ_discrete x 13) [
                | yes e ↦ inr (b'r', ground arith, ground arith)
                | no n7 ↦ inl (ground arith, ground arith, ground arith)
              ]
            ]
          ]
        ]
      ]
    ]
  ]
]

escape_from-plain :
    (n x : ℕ) (s : List ℕ) → x ≢ b'\\' → escape_from (suc n) (x ∷ s) ≡ x ∷ escape_from n s
unfolding escape_from
escape_from-plain zero x [] h = refl
escape_from-plain (suc n) x [] h = refl
escape_from-plain n x (y ∷ s) h = ground arith

escape_from-escape :
    (n y : ℕ) (s : List ℕ) {x : ℕ}
    → unescape_byte y ≡ some x
    → escape_from (suc (suc n)) (b'\\' ∷ y ∷ s) ≡ x ∷ escape_from n s
unfolding escape_from
escape_from-escape n y s h = ground arith

step_string-plain :
    (x : ℕ) (s : List ℕ) → x ≢ b'\\' → x ≢ b'"' → x ≢ 0 → step_string (x ∷ s) ≡ step_string s
unfolding step_string
step_string-plain x [] h k l = ground arith
step_string-plain x (y ∷ s) h k l = ground arith

step_string-escape : (y : ℕ) (s : List ℕ) → step_string (b'\\' ∷ y ∷ s) ≡ step_string s
unfolding step_string
step_string-escape y s = refl

-- `_escape_from` gives back the text that `_escape_to` wrote, whatever stands behind it.
pub escape_from-escape_to :
    (xs rest : List ℕ) → escape_from (length (escape_to xs)) (escape_to xs ++ rest) ≡ xs
unfolding escape_to
escape_from-escape_to [] rest = unfold escape_from in refl
escape_from-escape_to (x ∷ xs) rest = elim (escape_byte_cases x) [
  | inl (e, a, b) ↦ rw e (
      escape_from-plain (length (escape_to xs)) x (escape_to xs ++ rest) a
      ∙ ap (λ ys. x ∷ ys) (escape_from-escape_to xs rest))
  | inr (y, e, u) ↦ rw e (
      escape_from-escape (length (escape_to xs)) y (escape_to xs ++ rest) u
      ∙ ap (λ ys. x ∷ ys) (escape_from-escape_to xs rest))
]

-- Between quotes an escaped text without the byte 0 is one string: `_step_string` stops at the
-- closing quote and not before.
pub step_string-escape_to :
    (xs rest : List ℕ)
    → All (λ x. x ≢ 0) xs
    → step_string (escape_to xs ++ (b'"' ∷ rest)) ≡ some (b'"' ∷ rest)
unfolding escape_to
step_string-escape_to [] [] h = unfold step_string in refl
step_string-escape_to [] (y ∷ rest) h = unfold step_string in refl
step_string-escape_to (x ∷ xs) rest (h, hs) = elim (escape_byte_cases x) [
  | inl (e, a, b) ↦
      rw e (
        step_string-plain x (escape_to xs ++ (b'"' ∷ rest)) a b h
        ∙ step_string-escape_to xs rest hs)
  | inr (y, e, u) ↦
      rw e (step_string-escape y (escape_to xs ++ (b'"' ∷ rest)) ∙ step_string-escape_to xs rest hs)
]

-- The escaped text is at most twice as long.
pub length-escape_to :
    (xs : List ℕ) → length xs ≤ length (escape_to xs) × (length (escape_to xs) ≤ 2 * length xs)
unfolding escape_to
length-escape_to [] = omega arith
length-escape_to (x ∷ xs) = elim (escape_byte_cases x) [
  | inl (e, a, b) ↦ rw e (omega (arith, length-escape_to xs))
  | inr (y, e, u) ↦ rw e (omega (arith, length-escape_to xs))
]

-- The two switches write the same.
append_piece-escape_byte : (x : ℕ) → append_piece x ≡ escape_byte x
unfolding append_piece escape_byte
append_piece-escape_byte x = refl

-- With a callback that appends, piece by piece or at once alike, `_escape_to_json_append` hands over
-- the text that `_escape_to` writes.
pub escape_to_json_append-escape_to {ℓ} :
    {U : Type ℓ} (f : U → List ℕ → U)
    → ((u : U) → f u [] ≡ u)
    → ((u : U) (a b : List ℕ) → f (f u a) b ≡ f u (a ++ b))
    → (src : List ℕ) (ud : U) → escape_to_json_append f src ud ≡ f ud (escape_to src)
unfolding escape_to_json_append escape_to
escape_to_json_append-escape_to f none_ both [] ud = sym (none_ ud)
escape_to_json_append-escape_to f none_ both (x ∷ src) ud =
    ap (λ piece. escape_to_json_append f src (f ud piece)) (append_piece-escape_byte x)
    ∙ escape_to_json_append-escape_to f none_ both src (f ud (escape_byte x))
    ∙ both ud (escape_byte x) (escape_to src)

-- A text that ends in a lone `\` is read behind its final 0: `_step_string` steps over both.
pub step_string_overrun :
    (xs : List ℕ)
    → All (λ x. (x ≢ 0) × (x ≢ b'\\') × (x ≢ b'"')) xs
    → step_string (xs ++ (b'\\' ∷ 0 ∷ [])) ≡ none
step_string_overrun [] h = unfold step_string in refl
step_string_overrun (x ∷ xs) ((h, k, l), hs) =
    step_string-plain x (xs ++ (b'\\' ∷ 0 ∷ [])) k l h ∙ step_string_overrun xs hs

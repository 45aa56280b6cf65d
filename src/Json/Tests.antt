-- ===== src/Json/Tests.antt =====
-- Texts escaped, unescaped and stepped over.
use libsvr.Common.{ℕ, ◌≡◌, refl, arith, none, some, List, [], ◌∷◌, ◌++◌, length}
use libsvr.Json.{
  escape_byte, escape_to, escape_to_json_append, unescape_byte, escape_from, step_string,
}
use libsvr.Json.Escape.{
  escape_from-escape_to, step_string-escape_to, escape_to_json_append-escape_to,
  step_string_overrun,
}
use mathlib.Core.List.{append_assoc, append-nil}

-- a"/ and a line end
abbrev sample : List ℕ
sample = b'a' ∷ b'"' ∷ b'/' ∷ 10 ∷ []

escape_sample : escape_to sample ≡ b'a' ∷ b'\\' ∷ b'"' ∷ b'\\' ∷ b'/' ∷ b'\\' ∷ b'n' ∷ []
unfolding escape_to escape_byte
escape_sample = refl

-- An escape that is not known is copied.
unknown_escape : escape_from 3 (b'\\' ∷ b'u' ∷ b'0' ∷ []) ≡ b'\\' ∷ b'u' ∷ b'0' ∷ []
unfolding escape_from unescape_byte
unknown_escape = refl

escape_from-escape_to_example :
    escape_from (length (escape_to sample)) (escape_to sample ++ (7 ∷ [])) ≡ sample
escape_from-escape_to_example = escape_from-escape_to sample (7 ∷ [])

step_string-escape_to_example :
    step_string (escape_to sample ++ (b'"' ∷ 0 ∷ [])) ≡ some (b'"' ∷ 0 ∷ [])
step_string-escape_to_example = step_string-escape_to sample (0 ∷ []) (omega arith)

escape_to_json_append-escape_to_example :
    escape_to_json_append (λ u a. u ++ a) sample [] ≡ [] ++ escape_to sample
escape_to_json_append-escape_to_example =
    escape_to_json_append-escape_to {U = List ℕ} (λ u a. u ++ a) append-nil
      (λ u a b. append_assoc u a b) sample []

step_string_overrun_example : step_string (b'a' ∷ b'\\' ∷ 0 ∷ []) ≡ none
step_string_overrun_example = step_string_overrun (b'a' ∷ []) (omega arith)

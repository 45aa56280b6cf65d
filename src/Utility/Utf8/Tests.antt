-- ===== src/Utility/Utf8/Tests.antt =====
-- Texts of several kinds of code points.
use libsvr.Common.{ℕ, ◌≡◌, ◌↔◌, refl, arith, true, false, List, [], ◌∷◌}
use libsvr.Utility.Utf8.{four_ascii, skip_ascii, sequence, after_ascii, utf8_loop, is_valid_utf8}
use libsvr.Utility.Utf8.Scalar.{IsText}
use libsvr.Utility.Utf8.Equivalence.{is_valid_utf8-IsText}

-- five ASCII bytes, the euro sign, and a code point of four bytes
abbrev sample : List ℕ
sample = 97 ∷ 98 ∷ 99 ∷ 100 ∷ 101 ∷ 226 ∷ 130 ∷ 172 ∷ 240 ∷ 159 ∷ 152 ∷ 128 ∷ []

sample_is_valid : is_valid_utf8 sample ≡ true
unfolding is_valid_utf8 utf8_loop four_ascii skip_ascii after_ascii sequence
sample_is_valid = refl

-- a surrogate in three bytes
surrogate_is_invalid : is_valid_utf8 (237 ∷ 160 ∷ 128 ∷ []) ≡ false
unfolding is_valid_utf8 utf8_loop four_ascii skip_ascii after_ascii sequence
surrogate_is_invalid = refl

is_valid_utf8-IsText_example : (is_valid_utf8 (195 ∷ 182 ∷ []) ≡ true) ↔ IsText (195 ∷ 182 ∷ [])
is_valid_utf8-IsText_example =
    is_valid_utf8-IsText (195 ∷ 182 ∷ []) (omega arith, (omega arith, tt))

-- ===== src/Utility/Utf8.antt =====
-- `is_valid_utf8` of src/utility.cpp. A pointer is the list of the bytes from it to the end.
pub mod Scalar
pub mod Equivalence
mod Tests
use libsvr.Common.{
  ℕ, zero, suc, ◌/◌, ◌%◌, ◌+◌, Option, none, some, Bool, true, false, List, [], ◌∷◌, length, drop,
  ltb, leb, if◌then◌else◌, ◌==◌, ◌&&◌, ◌||◌, not,
}

-- four bytes are left, and none has its top bit
unfoldable pub four_ascii : List ℕ → Bool
four_ascii (a ∷ b ∷ c ∷ d ∷ s) = ltb a 128 && (ltb b 128 && (ltb c 128 && ltb d 128))
four_ascii s = false

-- the inner `while`
unfoldable pub skip_ascii : List ℕ → List ℕ
skip_ascii [] = []
skip_ascii (a ∷ s) = if ltb a 128 then skip_ascii s else a ∷ s

-- a byte 10xxxxxx
abbrev pub continues : ℕ → Bool
continues b = b / 64 == 2

abbrev pub next : Bool → List ℕ → Option (List ℕ)
next good s = if good then some s else none

-- the tests of a sequence of two, three and four bytes, and what follows it
abbrev pub two : ℕ → List ℕ → Option (List ℕ)
two a (b ∷ s) = next (continues b && not (a / 2 == 96)) s
two a s = none

abbrev pub three : ℕ → List ℕ → Option (List ℕ)
three a (b ∷ c ∷ s) =
    next
      (continues b
        && (continues c && (not (a == 224 && b / 32 == 4) && not (a == 237 && b / 32 == 5))))
      s
three a s = none

abbrev pub four : ℕ → List ℕ → Option (List ℕ)
four a (b ∷ c ∷ d ∷ s) =
    next
      (continues b
        && (continues c
            && (continues d
                && (not (a == 240 && b / 16 == 8) && (not (a == 244 && ltb 143 b) && leb a 244)))))
      s
four a s = none

-- one sequence that begins with `a`, by its top bits
unfoldable pub sequence : ℕ → List ℕ → Option (List ℕ)
sequence a s =
    if a / 32 % 4 == 2
    then two a s
    else if a / 16 == 14
    then three a s
    else if a / 8 == 30
    then four a s
    else none

-- what follows the ASCII bytes: the end, or one sequence and the rest
unfoldable pub after_ascii : (List ℕ → Bool) → List ℕ → Bool
after_ascii again [] = true
after_ascii again (b ∷ rest) = elim (sequence b rest) [ none ↦ false | some later ↦ again later ]

-- the loop, with a round for each byte at most
unfoldable pub utf8_loop : ℕ → List ℕ → Bool
utf8_loop fuel [] = true
utf8_loop zero s = false
utf8_loop (suc fuel) (a ∷ s) = elim (four_ascii (a ∷ s)) [
  | true ↦ utf8_loop fuel (drop 4 (a ∷ s))
  | false ↦ after_ascii (utf8_loop fuel) (skip_ascii (a ∷ s))
]

unfoldable pub is_valid_utf8 : List ℕ → Bool
unfolding utf8_loop
is_valid_utf8 s = utf8_loop (length s) s

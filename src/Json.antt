-- ===== src/Json.antt =====
-- The text layer of src/json.c: escaping, unescaping, and stepping over strings.
-- A pointer into a text is the list of the bytes from it on.
pub mod Escape
mod Tests
use libsvr.Common.{
  ℕ, zero, suc, ◌-◌, Bool, true, false, Option, none, some, ◌==◌, ltb, leb, ◌&&◌, ◌||◌,
  if◌then◌else◌, List, [], ◌∷◌, ◌++◌,
}

-- what the `switch` of `_escape_to` writes for one byte
pub escape_byte : ℕ → List ℕ
escape_byte x =
    if x == b'\\'
    then b'\\' ∷ b'\\' ∷ []
    else if x == b'/'
    then b'\\' ∷ b'/' ∷ []
    else if x == b'"'
    then b'\\' ∷ b'"' ∷ []
    else if x == 9
    then b'\\' ∷ b't' ∷ []
    else if x == 12
    then b'\\' ∷ b'f' ∷ []
    else if x == 8
    then b'\\' ∷ b'b' ∷ []
    else if x == 10
    then b'\\' ∷ b'n' ∷ []
    else if x == 13
    then b'\\' ∷ b'r' ∷ []
    else x ∷ []

-- the bytes written to `dst`; their number is what `_escape_to` returns
pub escape_to : List ℕ → List ℕ
escape_to [] = []
escape_to (x ∷ xs) = escape_byte x ++ escape_to xs

-- what the `switch` of `_escape_to_json_append` gives the callback for one byte
pub append_piece : ℕ → List ℕ
append_piece c =
    if c == b'\\'
    then b'\\' ∷ b'\\' ∷ []
    else if c == b'/'
    then b'\\' ∷ b'/' ∷ []
    else if c == b'"'
    then b'\\' ∷ b'"' ∷ []
    else if c == 9
    then b'\\' ∷ b't' ∷ []
    else if c == 12
    then b'\\' ∷ b'f' ∷ []
    else if c == 8
    then b'\\' ∷ b'b' ∷ []
    else if c == 10
    then b'\\' ∷ b'n' ∷ []
    else if c == 13
    then b'\\' ∷ b'r' ∷ []
    else c ∷ []

-- The callback `f` takes the user data `ud` along.
pub escape_to_json_append {ℓ} : {U : Type ℓ} → (U → List ℕ → U) → List ℕ → U → U
escape_to_json_append f [] ud = ud
escape_to_json_append f (x ∷ xs) ud = escape_to_json_append f xs (f ud (append_piece x))

-- the byte that an escape stands for, by the `if` chain of `_escape_from`
pub unescape_byte : ℕ → Option ℕ
unescape_byte y =
    if y == b'\\'
    then some b'\\'
    else if y == b'/'
    then some b'/'
    else if y == b'"'
    then some b'"'
    else if y == b't'
    then some 9
    else if y == b'f'
    then some 12
    else if y == b'b'
    then some 8
    else if y == b'n'
    then some 10
    else if y == b'r'
    then some 13
    else none

-- `n` bytes are left. The list may hold more, since the byte behind a `\` is read without a test of
-- the end; where it holds no such byte the `\` is copied.
pub escape_from : ℕ → List ℕ → List ℕ
escape_from zero s = []
escape_from (suc n) [] = []
escape_from (suc n) (x ∷ []) = x ∷ []
escape_from (suc n) (x ∷ y ∷ s) =
    let one = escape_from n (y ∷ s) in
    let two = escape_from (n - 1) s in
    if x == b'\\' then elim (unescape_byte y) [ some z ↦ z ∷ two | none ↦ x ∷ one ] else x ∷ one

-- `_step_string`: the pointer stops at a `"` or at the final 0; `none` is a read behind the text.
pub step_string : List ℕ → Option (List ℕ)
step_string [] = none
step_string (x ∷ []) = if (x == b'"') || (x == 0) then some (x ∷ []) else none
step_string (x ∷ y ∷ s) =
    let two = step_string s in
    let one = step_string (y ∷ s) in
    if x == b'\\' then two else if (x == b'"') || (x == 0) then some (x ∷ y ∷ s) else one

-- ===== src/Keys/Strings.antt =====
-- Hashed strings: `BKDRHash` and `BKDRHashW` of src/utility.cpp, `alloc_bkdr_str` and
-- `alloc_bkdr_wstr` of src/lib_svr_common_def.c. `text` gives the characters from an address to the
-- end of its block; a string is what stands before the first 0.
use Prim.Native.Nat.{Ordering}
use libsvr.Common.{
  ℕ, ◌+◌, ◌-◌, ◌*◌, ◌%◌, ◌^◌, ◌≡◌, ◌↔◌, refl, sym, ap, ◌∙◌, arith, Bool, true, false, leb, ◌==◌,
  if◌then◌else◌, List, [], ◌∷◌, ne→==, eq→==, ℕ_discrete,
}
use libsvr.Keys.{BkdrStr, bkdr_str_cmp}

-- `char` and `wchar_t` are signed, of 8 and of 32 bits, and are widened to 64.
abbrev widen : ℕ → ℕ → ℕ
widen w c = if leb (2 ^ (w - 1)) c then c + 2 ^ 64 - 2 ^ w else c

pub hash_from : ℕ → ℕ → List ℕ → ℕ
hash_from w hash [] = hash
hash_from w hash (c ∷ rest) =
    let more = hash_from w ((hash * 131 + widen w c) % 2 ^ 64) rest in if c == 0 then hash else more

abbrev pub bkdr_hash : List ℕ → ℕ
bkdr_hash str = hash_from 8 0 str

abbrev pub bkdr_hash_w : List ℕ → ℕ
bkdr_hash_w str = hash_from 32 0 str

-- what `strlen` and `memcpy` take of a string, and the 0 that is put behind it
pub copied : List ℕ → List ℕ
copied [] = 0 ∷ []
copied (c ∷ rest) = let more = copied rest in if c == 0 then 0 ∷ [] else c ∷ more

-- The allocator gives the address of the struct, and `room` is that of the bytes behind it.
alloc_by : (List ℕ → ℕ) → (ℕ → List ℕ) → ℕ → ℕ → Bool → BkdrStr × (ℕ → List ℕ)
alloc_by hash text room str is_copy =
    if is_copy
    then (
      record { hash_code = hash (text str); str = room },
      λ a. if a == room then copied (text str) else text a,
    )
    else (record { hash_code = hash (text str); str = str }, text)

pub alloc_bkdr_str : (ℕ → List ℕ) → ℕ → ℕ → Bool → BkdrStr × (ℕ → List ℕ)
unfolding alloc_by
alloc_bkdr_str text room str is_copy = alloc_by bkdr_hash text room str is_copy

pub alloc_bkdr_wstr : (ℕ → List ℕ) → ℕ → ℕ → Bool → BkdrStr × (ℕ → List ℕ)
unfolding alloc_by
alloc_bkdr_wstr text room str is_copy = alloc_by bkdr_hash_w text room str is_copy

-- the string at an address: the characters before the first 0
unfoldable pub string : List ℕ → List ℕ
string [] = []
string (c ∷ rest) = let more = string rest in if c == 0 then [] else c ∷ more

string-copied : (xs : List ℕ) → string (copied xs) ≡ string xs
unfolding string copied
string-copied [] = ground arith
string-copied (c ∷ rest) = ground (arith, string-copied rest)

hash_from-string : (w hash : ℕ) (xs : List ℕ) → hash_from w hash (string xs) ≡ hash_from w hash xs
unfolding hash_from string
hash_from-string w hash [] = refl
hash_from-string w hash (c ∷ rest) = elim (ℕ_discrete c 0) [
  | yes z ↦ rw (eq→== c 0 z) refl
  | no n ↦
      rw (ne→== c 0 n)
        (rw (ne→== c 0 n) (hash_from-string w ((hash * 131 + widen w c) % 2 ^ 64) rest))
]

-- The struct holds the hash of its string, and its string is the one that was given, copied or not.
pub alloc_bkdr_str_lem :
    (text : ℕ → List ℕ) (room str : ℕ) (is_copy : Bool)
    → let (made, text') = alloc_bkdr_str text room str is_copy in
      (made.hash_code ≡ bkdr_hash (text' made.str)) × (string (text' made.str) ≡ string (text str))
unfolding alloc_bkdr_str
alloc_bkdr_str_lem text room str true = rw (eq→== room room refl) (
  sym (hash_from-string 8 0 (text str))
      ∙ ap bkdr_hash (sym (string-copied (text str)))
      ∙ hash_from-string 8 0 (copied (text str)),
  string-copied (text str),
)
alloc_bkdr_str_lem text room str false = (refl, refl)

-- Where `strcmp` finds two strings equal exactly if they are the same, and both structs hold the
-- hash of their strings, `bkdr_str_cmp` finds them equal exactly if their strings are the same.
pub bkdr_str_cmp-string :
    (text : ℕ → List ℕ) (strcmp : ℕ → ℕ → Ordering)
    → ((p q : ℕ) → (strcmp p q ≡ Ordering.eq) ↔ (string (text p) ≡ string (text q)))
    → (memory : ℕ → BkdrStr) (a b : ℕ) → (memory a).hash_code ≡ bkdr_hash (text (memory a).str)
    → (memory b).hash_code ≡ bkdr_hash (text (memory b).str)
    → (bkdr_str_cmp strcmp memory a b ≡ Ordering.eq)
      ↔ (string (text (memory a).str) ≡ string (text (memory b).str))
unfolding bkdr_str_cmp
bkdr_str_cmp-string text strcmp same memory a b ha hb =
    let x = (memory a).str in
    let y = (memory b).str in
    let hashes : string (text x) ≡ string (text y) → (memory a).hash_code ≡ (memory b).hash_code =
      λ s.
        ha
        ∙ sym (hash_from-string 8 0 (text x))
        ∙ ap bkdr_hash s
        ∙ hash_from-string 8 0 (text y)
        ∙ sym hb in
    (λ e. ground (arith, (same x y).0), λ s. ground (arith, hashes s, (same x y).1 s))

-- ===== src/WebSocket/Masking.antt =====
-- Masking twice gives the bytes back, and masked bytes are bytes.
use Prim.Native.Nat.{bit_xor}
use libsvr.WebSocket.{Mask, turned, masked}
use libsvr.Common.{
  ℕ, zero, suc, ap₂, List, [], ◌∷◌, length, ap, All, ◌≡◌, ◌<◌, refl, arith, Bool, true, ◌&&◌, ◌==◌,
  ltb,
}

-- what is to hold of a byte and a byte of the mask
abbrev is_masked_well : ℕ → ℕ → Bool
is_masked_well m x = ltb (bit_xor x m) 256 && (bit_xor (bit_xor x m) m == x)

-- the bytes below `n` under one byte of the mask, and all bytes of the mask below `k`
row_is_good : ℕ → ℕ → Bool
row_is_good m zero = true
row_is_good m (suc n) = is_masked_well m n && row_is_good m n

rows_are_good : ℕ → Bool
rows_are_good zero = true
rows_are_good (suc k) = row_is_good k 256 && rows_are_good k

row_lem :
    (m n x : ℕ)
    → row_is_good m n ≡ true
    → x < n
    → (bit_xor x m < 256) × (bit_xor (bit_xor x m) m ≡ x)
unfolding row_is_good
row_lem m zero x good below = absurd (omega arith)
row_lem m (suc n) x good below = ground (arith, row_lem m n x)

rows_lem : (k m : ℕ) → rows_are_good k ≡ true → m < k → row_is_good m 256 ≡ true
unfolding rows_are_good
rows_lem zero m good below = absurd (omega arith)
rows_lem (suc k) m good below = ground (arith, rows_lem k m)

all_rows_are_good : rows_are_good 256 ≡ true
unfolding rows_are_good row_is_good
all_rows_are_good = refl

xor_byte : (x m : ℕ) → x < 256 → m < 256 → (bit_xor x m < 256) × (bit_xor (bit_xor x m) m ≡ x)
xor_byte x m h k = row_lem m 256 x (rows_lem 256 m all_rows_are_good k) h

abbrev pub IsByte : ℕ → Type 0
IsByte x = x < 256

pub record IsMask (m : Mask) : Type 0 where
  pub first : m.first < 256
  pub second : m.second < 256
  pub third : m.third < 256
  pub fourth : m.fourth < 256

pub turned-IsMask : (m : Mask) → IsMask m → IsMask (turned m)
turned-IsMask m h = record {
  first = h.second;
  second = h.third;
  third = h.fourth;
  fourth = h.first;
}

pub masked-masked :
    (m : Mask) (xs : List ℕ) → IsMask m → All IsByte xs → masked m (masked m xs) ≡ xs
unfolding masked
masked-masked m [] h b = refl
masked-masked m (x ∷ xs) h (b, bs) =
    ap₂ ◌∷◌ ((xor_byte x m.first b h.first).1) (masked-masked (turned m) xs (turned-IsMask m h) bs)

pub length-masked : (m : Mask) (xs : List ℕ) → length (masked m xs) ≡ length xs
unfolding masked
length-masked m [] = refl
length-masked m (x ∷ xs) = ap suc (length-masked (turned m) xs)

pub masked-IsByte : (m : Mask) (xs : List ℕ) → IsMask m → All IsByte xs → All IsByte (masked m xs)
unfolding masked
masked-IsByte m [] h b = b
masked-IsByte m (x ∷ xs) h (b, bs) =
    ((xor_byte x m.first b h.first).0, masked-IsByte (turned m) xs (turned-IsMask m h) bs)

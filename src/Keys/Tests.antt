-- ===== src/Keys/Tests.antt =====
-- Keys at concrete inputs.
use Prim.Native.Nat.{compare, Ordering}
use libsvr.Common.{ℕ, ◌+◌, ◌≡◌, ◌↔◌, List, [], ◌∷◌, arith}
use libsvr.AvlTree.Orders.{IsOrder, integers}
use libsvr.Keys.{BkdrStr, bkdr_str_cmp, KeySegment, bkdr_str_cmp-IsOrder}
use libsvr.Keys.Strings.{bkdr_hash, string}

-- the struct at address 10 has the hash 10, and its string is at 20
abbrev structs : ℕ → BkdrStr
structs a = record { hash_code = a; str = a + 10 }

bkdr_str_cmp-IsOrder_example : IsOrder (bkdr_str_cmp compare structs)
bkdr_str_cmp-IsOrder_example = bkdr_str_cmp-IsOrder integers structs

abbrev low : KeySegment
low = record { key_begin = 1; key_end = 5 }

abbrev high : KeySegment
high = record { key_begin = 5; key_end = 9 }

-- the string at each address is the one character that is its number
abbrev letters : ℕ → List ℕ
letters a = a ∷ 0 ∷ []

abbrev hashed : ℕ → BkdrStr
hashed a = record { hash_code = bkdr_hash (letters a); str = a }

letters_differ : (p q : ℕ) → (compare p q ≡ Ordering.eq) ↔ (string (letters p) ≡ string (letters q))
unfolding string
letters_differ p q = ground arith

-- ===== src/Keys.antt =====
-- The comparisons of src/lib_svr_common_def.c, for keys of a tree that are pointers to a hashed
-- string or to a segment of integers. The sign of the result is an `Ordering`.
pub mod Strings
mod Tests
use Prim.Native.Nat.{Ordering}
use libsvr.Common.{ℕ, ◌≡◌, ◌≤◌, ◌<◌, ◌⊎◌, inl, inr, arith, dec_lt, ltb, if◌then◌else◌}
use libsvr.AvlTree.Orders.{IsOrder}

pub record BkdrStr : Type 0 where
  pub hash_code : ℕ
  pub str : ℕ

-- `strcmp` is the C library's, and `memory` gives the struct behind a pointer.
pub bkdr_str_cmp : (ℕ → ℕ → Ordering) → (ℕ → BkdrStr) → ℕ → ℕ → Ordering
bkdr_str_cmp strcmp memory str1 str2 =
    if ltb (memory str1).hash_code (memory str2).hash_code
    then Ordering.lt
    else if ltb (memory str2).hash_code (memory str1).hash_code
    then Ordering.gt
    else strcmp (memory str1).str (memory str2).str

-- the same over `wcscmp`
abbrev pub bkdr_wstr_cmp : (ℕ → ℕ → Ordering) → (ℕ → BkdrStr) → ℕ → ℕ → Ordering
bkdr_wstr_cmp wcscmp memory str1 str2 = bkdr_str_cmp wcscmp memory str1 str2

pub record KeySegment : Type 0 where
  pub key_begin : ℕ
  pub key_end : ℕ

pub integer_key_segment_cmp : KeySegment → KeySegment → Ordering
integer_key_segment_cmp a b =
    if ltb a.key_end b.key_begin
    then Ordering.lt
    else if ltb b.key_end a.key_begin
    then Ordering.gt
    else Ordering.eq

-- Where `strcmp` is a total order, so is the comparison of the hashed strings: the tree may rely on
-- it.
pub bkdr_str_cmp-IsOrder :
    {strcmp : ℕ → ℕ → Ordering}
    → IsOrder strcmp
    → (memory : ℕ → BkdrStr) → IsOrder (bkdr_str_cmp strcmp memory)
unfolding bkdr_str_cmp
bkdr_str_cmp-IsOrder o memory = record {
  flip = λ a b h. ground (arith, o.flip (memory a).str (memory b).str);
  above = λ a b h. ground (arith, o.above (memory a).str (memory b).str);
  trans = λ a b c h k. ground (arith, o.trans (memory a).str (memory b).str (memory c).str);
  alike = λ a b c h. ground (arith, o.alike (memory a).str (memory b).str (memory c).str);
  alike_right =
      λ a b c h. ground (arith, o.alike_right (memory a).str (memory b).str (memory c).str);
}

abbrev pub Inside : ℕ → KeySegment → Type 0
Inside k s = (s.key_begin ≤ k) × (k ≤ s.key_end)

-- Two segments, neither of them empty, compare as equal exactly if they have a key in common. If
-- not, the one that compares as less ends before the other begins.
pub integer_key_segment_cmp-overlap :
    (a b : KeySegment)
    → a.key_begin ≤ a.key_end
    → b.key_begin ≤ b.key_end
    → ((integer_key_segment_cmp a b ≡ Ordering.eq) × ((k : ℕ) × Inside k a × Inside k b))
      ⊎ ((integer_key_segment_cmp a b ≡ Ordering.lt)
          × ((i j : ℕ) → Inside i a → Inside j b → i < j))
      ⊎ ((integer_key_segment_cmp a b ≡ Ordering.gt)
          × ((i j : ℕ) → Inside i a → Inside j b → j < i))
unfolding integer_key_segment_cmp
integer_key_segment_cmp-overlap a b p q = elim (dec_lt a.key_end b.key_begin) [
  | yes left ↦ inr (inl (ground arith, λ i j u v. omega arith))
  | no n ↦ elim (dec_lt b.key_end a.key_begin) [
    | yes right ↦ inr (inr (ground arith, λ i j u v. omega arith))
    | no m ↦ elim (dec_lt a.key_begin b.key_begin) [
      | yes s ↦
          inl (ground arith, (b.key_begin, (omega arith, omega arith), (omega arith, omega arith)))
      | no s ↦
          inl (ground arith, (a.key_begin, (omega arith, omega arith), (omega arith, omega arith)))
    ]
  ]
]

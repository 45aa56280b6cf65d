-- ===== src/Utility/Search/Segments.antt =====
-- What `split_mem_to_segments` returns and writes.
use libsvr.Common.{
  ◌⊎◌, subst, ℕ, zero, suc, ◌+◌, ◌-◌, ◌≡◌, ◌<◌, inl, inr, refl, sym, ap, ◌∙◌, arith, true, Option,
  none, some, Bool-cases, ltb, if◌then◌else◌, List, [], ◌∷◌, ◌++◌, map, length, drop, take,
  length-append, length-drop, take-append-drop,
}
use libsvr.Utility.Search.{
  Found, found, absent, stuck, memmem_s, MemSeg, segment, store, split_last, split_loop,
  split_mem_to_segments,
}
use libsvr.Utility.Search.Places.{first_place, absent-first_place, found-first_place}
use libsvr.Utility.Search.Sound.{Hit, memmem_s-Hit, memmem_s-ne-stuck}
use mathlib.Core.List.{append_assoc, map-append, append-nil}

-- the bytes of a segment
abbrev pub seg_bytes : MemSeg → List ℕ
seg_bytes s = elim s.mem [ none ↦ [] | some p ↦ take s.mem_size p ]

-- `pieces` are the parts of a block between occurrences of a separator. Where the separator stands at the
-- first place of its first byte, the block is cut there. What follows the last occurrence is a piece only
-- if it is not empty, and no separator stands there at the first place of its first byte.
pub data Cut (separator : List ℕ) : List ℕ → List (List ℕ) → Type 0 where
  done : Cut separator [] []
  last :
      (x : ℕ) (xs : List ℕ)
      → first_place separator (x ∷ xs) ≡ none
      → Cut separator (x ∷ xs) ((x ∷ xs) ∷ [])
  piece :
      {block rest : List ℕ} {pieces : List (List ℕ)} (front : List ℕ)
      → block ≡ front ++ (separator ++ rest)
      → (first_place separator block ≡ none) ⊎ (first_place separator block ≡ some (length front))
      → Cut separator rest pieces
      → Cut separator block (front ∷ pieces)

take-snoc {ℓ} :
    {A : Type ℓ} (n : ℕ) (xs : List A) (x : A)
    → take n (xs ++ (x ∷ [])) ≡ (if ltb (length xs) n then take n xs ++ (x ∷ []) else take n xs)
take-snoc zero [] x = refl
take-snoc zero (y ∷ xs) x = ground arith
take-snoc (suc zero) [] x = ground arith
take-snoc (suc (suc n)) [] x = ground arith
take-snoc (suc n) (y ∷ xs) x = ground (arith, take-snoc n xs x)

take-length_append : (xs ys : List ℕ) → take (length xs) (xs ++ ys) ≡ xs
take-length_append [] ys = refl
take-length_append (x ∷ xs) ys = ap (λ zs. x ∷ zs) (take-length_append xs ys)

take_all : (xs : List ℕ) → take (length xs) xs ≡ xs
take_all [] = refl
take_all (x ∷ xs) = ap (λ zs. x ∷ zs) (take_all xs)

seg_bytes-segment : (front q : List ℕ) → seg_bytes (segment (front ++ q) q) ≡ front
seg_bytes-segment [] q = ground arith
seg_bytes-segment (x ∷ front) q = rw (shorter, size) (take-length_append (x ∷ front) q)
  where
    shorter : ltb (length q) (length (x ∷ front ++ q)) ≡ true
    shorter = ground (arith, length-append front q)

    size : length (x ∷ front ++ q) - length q ≡ length (x ∷ front)
    size = omega (arith, length-append front q)

seg_bytes-store :
    (max count : ℕ) (segs : List MemSeg) (seg : MemSeg) (before : List (List ℕ))
    → count ≡ length before
    → map seg_bytes segs ≡ take max before
    → map seg_bytes (store max count segs seg) ≡ take max (before ++ (seg_bytes seg ∷ []))
seg_bytes-store max count segs seg before e h = elim (Bool-cases (ltb count max)) [
  | inl room ↦
      rw (room, take-snoc max before (seg_bytes seg), ← e, room)
        (map-append seg_bytes segs (seg ∷ []) ∙ ap (λ xs. xs ++ (seg_bytes seg ∷ [])) h)
  | inr full ↦ rw (full, take-snoc max before (seg_bytes seg), ← e, full) h
]

-- From `ptr_begin` on, with the pieces `before` stored, a run of the loop ends with the pieces of a
-- cut stored behind them.
record Ends (separator ptr_begin : List ℕ) (max : ℕ) (before : List (List ℕ))
    (result : Option (ℕ × List MemSeg)) : Type 0 where
  pieces : List (List ℕ)
  cut : Cut separator ptr_begin pieces
  count : ℕ
  segs : List MemSeg
  returns : result ≡ some (count, segs)
  counted : count ≡ length before + length pieces
  written : map seg_bytes segs ≡ take max (before ++ pieces)

split_last-Ends :
    (separator ptr_begin : List ℕ) (max count : ℕ) (segs : List MemSeg) (before : List (List ℕ))
    → first_place separator ptr_begin ≡ none
    → count ≡ length before
    → map seg_bytes segs ≡ take max before
    → Ends separator ptr_begin max before (some (split_last max ptr_begin count segs))
unfolding split_last
split_last-Ends separator [] max n segs before a e h = record {
  pieces = [];
  cut = done;
  count = n;
  segs = segs;
  returns = refl;
  counted = omega arith;
  written = rw append-nil h;
}
split_last-Ends separator (x ∷ xs) max n segs before a e h = record {
  pieces = (x ∷ xs) ∷ [];
  cut = last x xs a;
  count = n + 1;
  segs = _;
  returns = refl;
  counted = omega arith;
  written =
      seg_bytes-store max n segs _ before e h
      ∙ ap (λ ys. take max (before ++ (ys ∷ []))) (take_all (x ∷ xs));
}

Ends-later :
    {separator p q : List ℕ} {max : ℕ} {before : List (List ℕ)} (front : List ℕ)
    {result : Option (ℕ × List MemSeg)}
    → p ≡ front ++ (separator ++ q)
    → (first_place separator p ≡ none) ⊎ (first_place separator p ≡ some (length front))
    → Ends separator q max (before ++ (front ∷ [])) result
    → Ends separator p max before result
Ends-later {max = max} {before = before} front e f r = record {
  pieces = front ∷ r.pieces;
  cut = piece front e f r.cut;
  count = r.count;
  segs = r.segs;
  returns = r.returns;
  counted = omega (arith, r.counted, length-append before (front ∷ []));
  written = r.written ∙ ap (take max) (append_assoc before (front ∷ []) r.pieces);
}

module _ (c : ℕ) (cs : List ℕ) (max : ℕ) where
  -- the separator splits the block where it was found
  separated :
      {p q : List ℕ}
      → (h : Hit p (c ∷ cs) (suc (length cs)) q)
      → p ≡ h.front ++ ((c ∷ cs) ++ drop (suc (length cs)) q)
  separated {q = q} h =
      h.whole
      ∙ ap (λ ys. h.front ++ ys)
          (sym (take-append-drop (suc (length cs)) q)
            ∙ ap (λ ys. ys ++ drop (suc (length cs)) q) (h.same ∙ take_all (c ∷ cs)))

  -- it was found where it first stands, or behind a place where only its first byte does
  placed :
      {p q : List ℕ}
      → (h : Hit p (c ∷ cs) (suc (length cs)) q) → memmem_s p c cs (suc (length cs)) ≡ found q
      → (first_place (c ∷ cs) p ≡ none) ⊎ (first_place (c ∷ cs) p ≡ some (length h.front))
  placed {p = p} {q = q} h m =
      let n : length p - length q ≡ length h.front =
        omega (arith, ap length h.whole, length-append h.front q) in
      subst (λ n. (first_place (c ∷ cs) p ≡ none) ⊎ (first_place (c ∷ cs) p ≡ some n)) n
        (found-first_place c cs p q m)

  shorter :
      {p q : List ℕ}
      → Hit p (c ∷ cs) (suc (length cs)) q
      → length (drop (suc (length cs)) q) < length p
  shorter {q = q} h =
      omega
        (arith, length-drop (suc (length cs)) q, h.room, ap length h.whole, length-append h.front q)

  split_loop-Ends :
      (fuel : ℕ) (p : List ℕ) (count : ℕ) (segs : List MemSeg) (before : List (List ℕ))
      → length p < fuel
      → count ≡ length before
      → map seg_bytes segs ≡ take max before
      → Ends (c ∷ cs) p max before (split_loop fuel c cs (suc (length cs)) max p count segs)
  unfolding split_loop
  split_loop-Ends zero p count segs before l e h = absurd (omega arith)
  split_loop-Ends (suc fuel) p count segs before l e h =
      go (split_loop-Ends fuel) (memmem_s p c cs (suc (length cs))) refl
    where
      stored :
          (q : List ℕ) (hit : Hit p (c ∷ cs) (suc (length cs)) q)
          → map seg_bytes (store max count segs (segment p q))
            ≡ take max (before ++ (hit.front ∷ []))
      stored q hit =
          seg_bytes-store max count segs (segment p q) before e h
          ∙ ap (λ ys. take max (before ++ (ys ∷ [])))
              (rw (hit.whole) (seg_bytes-segment hit.front q))

      go :
          ((p : List ℕ) (count : ℕ) (segs : List MemSeg) (before : List (List ℕ))
            → length p < fuel
            → count ≡ length before
            → map seg_bytes segs ≡ take max before
            → Ends (c ∷ cs) p max before (split_loop fuel c cs (suc (length cs)) max p count segs))
          → (r : Found) → memmem_s p c cs (suc (length cs)) ≡ r
          → Ends
              (c ∷ cs)
              p
              max
              before
              (split_loop (suc fuel) c cs (suc (length cs)) max p count segs)
      go later (found q) m =
          let hit = memmem_s-Hit p c cs (suc (length cs)) m in
          rw (m, split_loop)
            (Ends-later hit.front (separated hit) (placed hit m) (
              later (drop (suc (length cs)) q) (count + 1) (store max count segs (segment p q))
                (before ++ (hit.front ∷ [])) (omega (arith, shorter hit))
                (omega (arith, length-append before (hit.front ∷ []))) (stored q hit)))
      go later absent m =
          rw (m, split_loop)
            (split_last-Ends (c ∷ cs) p max count segs before (absent-first_place c cs p m) e h)
      go later stuck m = absurd (memmem_s-ne-stuck p c cs _ m)

  -- With the true length of the separator split_mem_to_segments returns. The block has a cut at
  -- occurrences of the separator, each at the first place of its first byte if it stands there,
  -- and with no such occurrence left in the last piece; the number returned is the number of
  -- pieces, and the segments written hold the first max of them, in order.
  pub split_mem-Cut :
      (mem : List ℕ)
      → (pieces : List (List ℕ)) × (count : ℕ) × (segs : List MemSeg) × Cut (c ∷ cs) mem pieces
        × (split_mem_to_segments mem c cs (suc (length cs)) max ≡ some (count, segs))
        × (count ≡ length pieces)
        × (map seg_bytes segs ≡ take max pieces)
  unfolding split_mem_to_segments
  split_mem-Cut mem =
      let r = split_loop-Ends (suc (length mem)) mem 0 [] [] (omega arith) refl (nothing max) in
      (r.pieces, r.count, r.segs, r.cut, r.returns, omega (arith, r.counted), r.written)
    where
      nothing : (n : ℕ) → [] ≡ take {A = List ℕ} n []
      nothing zero = refl
      nothing (suc n) = refl

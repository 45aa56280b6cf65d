-- ===== src/Utility/Search/Places.antt =====
-- Where `memmem_s` must find a needle: at the first place of its first byte, if it stands there.
use libsvr.Common.{
  ℕ, zero, suc, ◌-◌, ◌≡◌, ◌<◌, ◌≤◌, ◌⊎◌, inl, inr, refl, ap, ◌∙◌, arith, Bool, true, false, Option,
  none, some, Bool-cases, Option-cases, ltb, ltb→lt, lt→ltb, ◌==◌, ◌&&◌, if◌then◌else◌, List, [],
  ◌∷◌, length, subst,
}
use libsvr.Utility.Search.{
  Found, found, absent, stuck, memchr, memcmp_same, memmem_loop, of_pointer, memmem_s,
}

-- the block begins with the needle
pub starts : List ℕ → List ℕ → Bool
starts [] p = true
starts (a ∷ ns) [] = false
starts (a ∷ ns) (b ∷ p) = (b == a) && starts ns p

pub next_place : Option ℕ → Option ℕ
next_place none = none
next_place (some n) = some (suc n)

-- the place of the needle's first byte, if the needle stands there
pub first_place : List ℕ → List ℕ → Option ℕ
first_place [] p = none
first_place (c ∷ cs) [] = none
first_place (c ∷ cs) (x ∷ p) = elim (x == c) [
  | true ↦ if starts (c ∷ cs) (x ∷ p) then some 0 else none
  | false ↦ next_place (first_place (c ∷ cs) p)
]

module _ (c : ℕ) (cs : List ℕ) where
  memchr-none : (p : List ℕ) → memchr p c ≡ none → first_place (c ∷ cs) p ≡ none
  unfolding memchr first_place next_place
  memchr-none [] h = refl
  memchr-none (x ∷ p) h = elim (Bool-cases (x == c)) [
    | inl e ↦ absurd (ground arith)
    | inr e ↦ rw (first_place, e, memchr-none p (rw (memchr, e) at h)) refl
  ]

  abbrev Placed : List ℕ → List ℕ → Type 0
  Placed p q =
      (length q ≤ length p)
      × (first_place (c ∷ cs) p ≡ (if starts (c ∷ cs) q then some (length p - length q) else none))

  memchr-some : (p q : List ℕ) → memchr p c ≡ some q → Placed p q
  unfolding memchr first_place next_place
  memchr-some [] q h = absurd (ground arith)
  memchr-some (x ∷ p) q h = elim (Bool-cases (x == c)) [
    | inl e ↦
        let same : x ∷ p ≡ q = ap (λ o. elim o [ none ↦ q | some r ↦ r ]) (rw (memchr, e) at h) in
        let zero_ : length (x ∷ p) - length (x ∷ p) ≡ 0 = omega arith in
        subst (Placed (x ∷ p)) same (omega arith, rw (first_place, e, zero_) refl)
    | inr e ↦
        let (l, f) = memchr-some p q (rw (memchr, e) at h) in
        (
          omega arith,
          elim (Bool-cases (starts (c ∷ cs) q)) [
            | inl s ↦
                let g : first_place (c ∷ cs) p ≡ some (length p - length q) = rw s at f in
                rw (first_place, e, g, s) (ap some (omega arith))
            | inr s ↦
                let g : first_place (c ∷ cs) p ≡ none = rw s at f in rw (first_place, e, g, s) refl
          ],
        )
  ]

  starts_short : (ns q : List ℕ) → length q < length ns → starts ns q ≡ false
  unfolding starts
  starts_short [] q h = absurd (omega arith)
  starts_short (a ∷ ns) [] h = refl
  starts_short (a ∷ ns) (b ∷ q) h = ground (arith, starts_short ns q)

  starts-memcmp_same : (ns q : List ℕ) → starts ns q ≡ memcmp_same (length ns) q ns
  unfolding starts memcmp_same
  starts-memcmp_same [] q = refl
  starts-memcmp_same (a ∷ ns) [] = refl
  starts-memcmp_same (a ∷ ns) (b ∷ q) = ap (λ r. (b == a) && r) (starts-memcmp_same ns q)

  -- what a result says of the first place
  Fits : List ℕ → Found → Type 0
  Fits p absent = first_place (c ∷ cs) p ≡ none
  Fits p (found q) =
      (first_place (c ∷ cs) p ≡ none) ⊎ (first_place (c ∷ cs) p ≡ some (length p - length q))
  Fits p stuck = Unit

  none-Fits : (p : List ℕ) → first_place (c ∷ cs) p ≡ none → (r : Found) → Fits p r
  unfolding Fits
  none-Fits p h absent = h
  none-Fits p h (found q) = inl h
  none-Fits p h stuck = tt

  pointer-Fits : (p : List ℕ) → Fits p (of_pointer (memchr p c))
  unfolding of_pointer Fits
  pointer-Fits p = elim (Option-cases (memchr p c)) [
    | inl e ↦ none-Fits p (memchr-none p e) _
    | inr (q, e) ↦
        let (l, f) = memchr-some p q e in
        elim (Bool-cases (starts (c ∷ cs) q)) [
          | inl s ↦ rw (of_pointer, e) (inr (rw s at f))
          | inr s ↦ none-Fits p (rw s at f) _
        ]
  ]

  loop-Fits : (fuel : ℕ) (p : List ℕ) → Fits p (memmem_loop fuel p c cs (suc (length cs)))
  unfolding memmem_loop Fits
  loop-Fits zero p = tt
  loop-Fits (suc fuel) p = elim (Option-cases (memchr p c)) [
    | inl e ↦ rw (memmem_loop, e) (memchr-none p e)
    | inr (q, e) ↦
        let (l, f) = memchr-some p q e in
        elim (Bool-cases (ltb (length q) (suc (length cs)))) [
          | inl short ↦
              let s = starts_short (c ∷ cs) q (ltb→lt _ _ short) in none-Fits p (rw s at f) _
          | inr long ↦ elim (Bool-cases (memcmp_same (suc (length cs)) q (c ∷ cs))) [
            | inl same ↦
                rw (memmem_loop, e, long, same)
                  (inr (rw (starts-memcmp_same (c ∷ cs) q ∙ same) at f))
            | inr other ↦ none-Fits p (rw (starts-memcmp_same (c ∷ cs) q ∙ other) at f) _
          ]
        ]
  ]

memmem_s-Fits : (c : ℕ) (cs p : List ℕ) → Fits c cs p (memmem_s p c cs (suc (length cs)))
unfolding memmem_s
memmem_s-Fits c [] p = pointer-Fits c [] p
memmem_s-Fits c (d ∷ ds) p =
    rw (lt→ltb 1 (suc (suc (length ds))) (omega arith)) (loop-Fits c (d ∷ ds) (suc (length p)) p)

pub absent-first_place :
    (c : ℕ) (cs p : List ℕ)
    → memmem_s p c cs (suc (length cs)) ≡ absent
    → first_place (c ∷ cs) p ≡ none
unfolding Fits
absent-first_place c cs p h = subst (Fits c cs p) h (memmem_s-Fits c cs p)

pub found-first_place :
    (c : ℕ) (cs p q : List ℕ)
    → memmem_s p c cs (suc (length cs)) ≡ found q
    → (first_place (c ∷ cs) p ≡ none) ⊎ (first_place (c ∷ cs) p ≡ some (length p - length q))
unfolding Fits
found-first_place c cs p q h = subst (Fits c cs p) h (memmem_s-Fits c cs p)

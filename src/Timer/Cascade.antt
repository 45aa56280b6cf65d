-- ===== src/Timer/Cascade.antt =====
-- Cascading leaves every timer where it may stand, and none in a slot that is due.
use libsvr.Common.{
  ℕ, ◌%◌, ◌^◌, ◌≤◌, ◌<◌, ◌≡◌, sym, subst, arith, Bool-cases, inl, inr, false, List, [], ◌∷◌, All,
  All-append, All-map, eq→==, ne→==, ℕ_discrete,
}
use libsvr.Timer.{
  Place, tv2, tv3, tv4, tv5, TimerInfo, TimerManager, same_place, place, add_timer, add_all,
  at_place, elsewhere, cascade, cascade_due, index_0, index_1, index_2, index_3,
}
use libsvr.Timer.Wheels.{
  Fits, Fits-weak, place-Fits, Fits-later, Fits-tv2, Fits-tv3, Fits-tv4, Fits-tv5, Fits-after_tv2,
  Fits-after_tv3, Fits-after_tv4,
}

-- The fields of a timer are in range, and it is not to expire again in the tick in which it does.
abbrev pub IsFair : TimerInfo → Type 0
IsFair t = (t.expires < 2 ^ 32) × (1 ≤ t.elapse) × (t.elapse < 2 ^ 32)

abbrev pub Stands : ℕ → ℕ → ℕ → ℕ → ℕ → Place × TimerInfo → Type 0
Stands s2 s3 s4 s5 last e = IsFair e.1 × Fits s2 s3 s4 s5 last e.1.expires e.0

-- a manager at the tick `last` all of whose timers satisfy `P`
abbrev pub Has : (Place × TimerInfo → Type 0) → ℕ → TimerManager → Type 0
Has P last m = (m.last_tick ≡ last) × All P m.placed

module _ (Q : Place × TimerInfo → Type 0) (last : ℕ) where
  pub add_timer-Has :
      (m : TimerManager) (t : TimerInfo)
      → Has Q last m
      → Q (place last t.expires, t)
      → Has Q last (add_timer m t)
  unfolding add_timer
  add_timer-Has m t (same, a) q = (
    same,
    All-append Q m.placed ((place m.last_tick t.expires, t) ∷ []) a
        (subst (λ l. Q (place l t.expires, t)) (sym same) q, tt),
  )

module _ (P Q : Place × TimerInfo → Type 0) (last : ℕ) where
  module _ (p : Place) where
    elsewhere-All :
        ((e : Place × TimerInfo) → same_place e.0 p ≡ false → P e → Q e)
        → (xs : List (Place × TimerInfo)) → All P xs
        → All Q (elsewhere p xs)
    unfolding elsewhere
    elsewhere-All keep [] a = tt
    elsewhere-All keep ((q, t) ∷ rest) (a, more) = elim (Bool-cases (same_place q p)) [
      | inl e ↦ rw e (elsewhere-All keep rest more)
      | inr e ↦ rw e (keep (q, t) e a, elsewhere-All keep rest more)
    ]

    at_place-All :
        ((e : Place × TimerInfo) → P e → IsFair e.1)
        → (xs : List (Place × TimerInfo)) → All P xs
        → All IsFair (at_place p xs)
    unfolding at_place
    at_place-All fair [] a = tt
    at_place-All fair ((q, t) ∷ rest) (a, more) = elim (Bool-cases (same_place q p)) [
      | inl e ↦ rw e (fair (q, t) a, at_place-All fair rest more)
      | inr e ↦ rw e (at_place-All fair rest more)
    ]

  module _ (new : (t : TimerInfo) → IsFair t → Q (place last t.expires, t)) where
    add_all-Has :
        (m : TimerManager) (ts : List TimerInfo)
        → Has Q last m
        → All IsFair ts
        → Has Q last (add_all m ts)
    unfolding add_all
    add_all-Has m [] h a = h
    add_all-Has m (t ∷ ts) h (a, more) =
        add_all-Has (add_timer m t) ts (add_timer-Has Q last m t h (new t a)) more

    cascade-Has :
        (m : TimerManager) (p : Place)
        → ((e : Place × TimerInfo) → P e → IsFair e.1)
        → ((e : Place × TimerInfo) → same_place e.0 p ≡ false → P e → Q e)
        → Has P last m
        → Has Q last (cascade m p)
    unfolding cascade
    cascade-Has m p fair keep (same, a) =
        add_all-Has (record m { placed = elsewhere p m.placed }) (at_place p m.placed)
          (same, elsewhere-All p keep m.placed a) (at_place-All p fair m.placed a)

module _ (last : ℕ) (l : last < 2 ^ 32) where
  pub place-Stands :
      (s2 s3 s4 s5 : ℕ)
      → (s2 ≤ 1) × (s3 ≤ 1) × (s4 ≤ 1) × (s5 ≤ 1)
      → (t : TimerInfo) → IsFair t
      → Stands s2 s3 s4 s5 last (place last t.expires, t)
  place-Stands s2 s3 s4 s5 small t f = (
    f,
    Fits-weak s2 s3 s4 s5 last t.expires (place last t.expires) small
        (place-Fits last t.expires l f.0),
  )

  -- the effect of `_cascade` on a wheel whose index is due
  one_cascade :
      (s2 s3 s4 s5 r2 r3 r4 r5 : ℕ) (p : Place) (m : TimerManager)
      → (r2 ≤ 1) × (r3 ≤ 1) × (r4 ≤ 1) × (r5 ≤ 1)
      → ((q : Place) (x : ℕ)
          → x < 2 ^ 32
          → same_place q p ≡ false
          → Fits s2 s3 s4 s5 last x q
          → Fits r2 r3 r4 r5 last x q)
      → Has (Stands s2 s3 s4 s5 last) last m
      → Has (Stands r2 r3 r4 r5 last) last (cascade m p)
  one_cascade s2 s3 s4 s5 r2 r3 r4 r5 p m small keep h =
      cascade-Has (Stands s2 s3 s4 s5 last) (Stands r2 r3 r4 r5 last) last
        (place-Stands r2 r3 r4 r5 small) m p (λ e k. k.0)
        (λ e n k. (k.0, keep e.0 e.1.expires k.0.0 n k.1)) h

  -- no cascade is due any more
  settled :
      (s2 s3 s4 s5 : ℕ) (m : TimerManager)
      → ((q : Place) (x : ℕ) → x < 2 ^ 32 → Fits s2 s3 s4 s5 last x q → Fits 1 1 1 1 last x q)
      → Has (Stands s2 s3 s4 s5 last) last m
      → Has (Stands 1 1 1 1 last) last m
  settled s2 s3 s4 s5 m up (same, a) = (
    same,
    All-map (Stands s2 s3 s4 s5 last) (Stands 1 1 1 1 last) m.placed
        (λ e k. (k.0, up e.0 e.1.expires k.0.0 k.1)) a,
  )

-- After the cascades of a tick every timer in a higher wheel has its own cascade still to come.
module _ (m : TimerManager) (l : m.last_tick < 2 ^ 32) where
  abbrev now : ℕ
  now = m.last_tick

  abbrev At : ℕ → ℕ → ℕ → ℕ → TimerManager → Type 0
  At s2 s3 s4 s5 w = Has (Stands s2 s3 s4 s5 now) now w

  abbrev m2 : TimerManager
  m2 = cascade m (tv2 (index_0 now))

  abbrev m3 : TimerManager
  m3 = cascade m2 (tv3 (index_1 now))

  abbrev m4 : TimerManager
  m4 = cascade m3 (tv4 (index_2 now))

  abbrev m5 : TimerManager
  m5 = cascade m4 (tv5 (index_3 now))

  At-tv2 : now % 2 ^ 8 ≡ 0 → At 0 0 0 0 m → At 1 0 0 0 m2
  At-tv2 z =
      one_cascade now l 0 0 0 0 1 0 0 0 (tv2 (index_0 now)) m (omega arith)
        (λ q x lx n f. Fits-tv2 now x l lx q z n f)

  At-tv3 : now % 2 ^ 14 ≡ 0 → At 1 0 0 0 m2 → At 1 1 0 0 m3
  At-tv3 z =
      one_cascade now l 1 0 0 0 1 1 0 0 (tv3 (index_1 now)) m2 (omega arith)
        (λ q x lx n f. Fits-tv3 now x l lx q z n f)

  At-tv4 : now % 2 ^ 20 ≡ 0 → At 1 1 0 0 m3 → At 1 1 1 0 m4
  At-tv4 z =
      one_cascade now l 1 1 0 0 1 1 1 0 (tv4 (index_2 now)) m3 (omega arith)
        (λ q x lx n f. Fits-tv4 now x l lx q z n f)

  At-tv5 : now % 2 ^ 26 ≡ 0 → At 1 1 1 0 m4 → At 1 1 1 1 m5
  At-tv5 z =
      one_cascade now l 1 1 1 0 1 1 1 1 (tv5 (index_3 now)) m4 (omega arith)
        (λ q x lx n f. Fits-tv5 now x l lx q z n f)

  pub cascade_due-Stands : At 0 0 0 0 m → At 1 1 1 1 (cascade_due m)
  unfolding cascade_due
  cascade_due-Stands h = elim (ℕ_discrete (now % 2 ^ 8) 0) [
    | no n ↦
        rw (ne→== (now % 2 ^ 8) 0 n)
          (settled now l 0 0 0 0 m (λ q x lx f. Fits-later now x l lx q n f) h)
    | yes z ↦ rw (eq→== (now % 2 ^ 8) 0 z) (elim (ℕ_discrete (index_0 now) 0) [
      | no n ↦
          rw (ne→== (index_0 now) 0 n)
            (settled now l 1 0 0 0 m2 (λ q x lx f. Fits-after_tv2 now x l lx q n f) (At-tv2 z h))
      | yes z2 ↦
          let h3 = At-tv3 (omega arith) (At-tv2 z h) in
          rw (eq→== (index_0 now) 0 z2) (elim (ℕ_discrete (index_1 now) 0) [
            | no n ↦
                rw (ne→== (index_1 now) 0 n)
                  (settled now l 1 1 0 0 m3 (λ q x lx f. Fits-after_tv3 now x l lx q n f) h3)
            | yes z3 ↦
                let h4 = At-tv4 (omega arith) h3 in
                rw (eq→== (index_1 now) 0 z3) (elim (ℕ_discrete (index_2 now) 0) [
                  | no n ↦
                      rw (ne→== (index_2 now) 0 n)
                        (settled now l 1 1 1 0 m4 (λ q x lx f. Fits-after_tv4 now x l lx q n f) h4)
                  | yes z4 ↦ rw (eq→== (index_2 now) 0 z4) (At-tv5 (omega arith) h4)
                ])
          ])
    ])
  ]

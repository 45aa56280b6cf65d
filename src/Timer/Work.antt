-- ===== src/Timer/Work.antt =====
-- Working off the timers of a tick: what a call of the callback and the re-arming keep.
use libsvr.Common.{
  ℕ, ◌%◌, ◌^◌, ◌≤◌, ◌<◌, ◌≡◌, ◌⊎◌, refl, sym, ap, subst, arith, Bool-cases, Option-cases, inl, inr,
  true, false, Option, none, some, List, [], ◌∷◌, map, All, ◌==◌, if◌then◌else◌, add32,
}
use libsvr.Common.Int.{ℤ}
use libsvr.Timer.{
  Place, tv1, tv2, tv3, tv4, tv5, work, TimerInfo, TimerManager, same_place, place, add_timer,
  timer_add, modified, detach, pending, timer_mod, timer_del, Call, add, modify, delete, call,
  calls, next_work, start_work,
}
use libsvr.Timer.Wheels.{Fits, place-Fits, Fits-due, place_later}
use libsvr.Timer.Cascade.{IsFair, Stands, Has, add_timer-Has}

-- While the timers of the tick `last` are worked off: those in `work_list` expire now, and the
-- others later.
abbrev pub Busy : ℕ → Place × TimerInfo → Type 0
Busy last e =
    IsFair e.1
    × (((same_place e.0 work ≡ true) × (e.1.expires ≡ last))
        ⊎ (Fits 1 1 1 1 last e.1.expires e.0 × (same_place e.0 (tv1 (last % 2 ^ 8)) ≡ false)))

abbrev pub IsElapse : ℕ → Type 0
IsElapse n = (1 ≤ n) × (n < 2 ^ 32)

-- The callback asks for no timer that is to expire at once.
abbrev pub IsFairCall : Call → Type 0
IsFairCall (add addr elapse count user_data) = IsElapse elapse
IsFairCall (modify addr elapse count user_data) = IsElapse elapse
IsFairCall (delete addr) = Unit

module _ (last : ℕ) (l : last < 2 ^ 32) where
  start_work-All :
      (xs : List (Place × TimerInfo))
      → All (Stands 1 1 1 1 last) xs
      → All
          (Busy last)
          (map (λ e. if same_place e.0 (tv1 (last % 2 ^ 8)) then (work, e.1) else e) xs)
  start_work-All [] a = tt
  start_work-All (e ∷ xs) ((fair, fits), more) =
      elim (Bool-cases (same_place e.0 (tv1 (last % 2 ^ 8)))) [
        | inl due ↦ rw due (
          (fair, inl (refl, Fits-due last e.1.expires l fair.0 e.0 due fits)),
          start_work-All xs more,
        )
        | inr n ↦ rw n ((fair, inr (fits, n)), start_work-All xs more)
      ]

  pub start_work-Has :
      (m : TimerManager) → Has (Stands 1 1 1 1 last) last m → Has (Busy last) last (start_work m)
  unfolding start_work
  start_work-Has m (same, a) = (
    same,
    subst
        (λ n.
          All (Busy last)
            (map (λ e. if same_place e.0 (tv1 (n % 2 ^ 8)) then (work, e.1) else e) m.placed))
        (sym same) (start_work-All m.placed a),
  )

  -- arming a timer while others are worked off
  pub add_later :
      (m : TimerManager) (t : TimerInfo)
      → Has (Busy last) last m
      → IsElapse t.elapse
      → t.expires ≡ add32 last t.elapse
      → Has (Busy last) last (add_timer m t)
  add_later m t h f e = add_timer-Has (Busy last) last m t h (
    (omega arith, f.0, f.1),
    inr (
      place-Fits last t.expires l (omega arith),
      subst (λ x. same_place (place last x) (tv1 (last % 2 ^ 8)) ≡ false) (sym e)
          (place_later last t.elapse l f.0 f.1),
    ),
  )

  pub detach-All :
      (P : Place × TimerInfo → Type 0) (addr : ℕ) (xs : List (Place × TimerInfo))
      → All P xs
      → All P (detach addr xs)
  unfolding detach
  detach-All P addr [] a = tt
  detach-All P addr ((p, t) ∷ xs) (a, more) = elim (Bool-cases (t.addr == addr)) [
    | inl e ↦ rw e (detach-All P addr xs more)
    | inr e ↦ rw e (a, detach-All P addr xs more)
  ]

  timer_mod-Busy :
      (m : TimerManager) (addr elapse : ℕ) (count : ℤ) (user_data : ℕ)
      → Has (Busy last) last m
      → IsElapse elapse
      → Has (Busy last) last (timer_mod m addr elapse count user_data)
  unfolding timer_mod modified
  timer_mod-Busy m addr elapse count user_data (same, a) f =
      elim (Option-cases (pending addr m.placed)) [
        | inl e ↦ rw (e, timer_mod) (same, a)
        | inr (t, e) ↦
            rw (e, timer_mod)
              (add_later (record m { placed = detach addr m.placed })
                (modified m.last_tick t elapse count user_data)
                (same, detach-All (Busy last) addr m.placed a) f (ap (λ n. add32 n elapse) same))
      ]

  -- the manager and the timer whose callback runs
  abbrev pub IsBusy : TimerManager × TimerInfo → Type 0
  IsBusy s = Has (Busy last) last s.0 × IsElapse s.1.elapse

  call-IsBusy :
      (s : TimerManager × TimerInfo) (c : Call) → IsBusy s → IsFairCall c → IsBusy (call s c)
  unfolding call timer_add timer_del modified
  call-IsBusy (m, info) (add addr elapse count user_data) (h, f) g = (
    add_later m
        (record {
          addr = addr;
          expires = add32 m.last_tick elapse;
          elapse = elapse;
          count = count;
          user_data = user_data;
        })
        h g (ap (λ n. add32 n elapse) h.0),
    f,
  )
  call-IsBusy (m, info) (modify addr elapse count user_data) (h, f) g =
      elim (Bool-cases (info.addr == addr)) [
        | inl e ↦ rw e (h, g)
        | inr e ↦ rw e (timer_mod-Busy m addr elapse count user_data h g, f)
      ]
  call-IsBusy (m, info) (delete addr) (h, f) g = elim (Bool-cases (info.addr == addr)) [
    | inl e ↦ rw e (h, f)
    | inr e ↦ rw e ((h.0, detach-All (Busy last) addr m.placed h.1), f)
  ]

  pub calls-IsBusy :
      (s : TimerManager × TimerInfo) (cs : List Call)
      → IsBusy s
      → All IsFairCall cs
      → IsBusy (calls s cs)
  unfolding calls
  calls-IsBusy s [] b g = b
  calls-IsBusy s (c ∷ cs) b (g, more) = calls-IsBusy (call s c) cs (call-IsBusy s c b g) more

  work-now :
      (p : Place) (x : ℕ)
      → same_place p work ≡ true
      → ((same_place p work ≡ true) × (x ≡ last))
        ⊎ (Fits 1 1 1 1 last x p × (same_place p (tv1 (last % 2 ^ 8)) ≡ false))
      → x ≡ last
  work-now p x e (inl (w, now)) = now
  work-now work x e (inr (f, n)) = absurd f
  work-now (tv1 i) x e (inr f) = cc
  work-now (tv2 i) x e (inr f) = cc
  work-now (tv3 i) x e (inr f) = cc
  work-now (tv4 i) x e (inr f) = cc
  work-now (tv5 i) x e (inr f) = cc

-- What `next_work` finds: the first timer in `work_list`, or none.
abbrev pub Next :
    ℕ → List (Place × TimerInfo) → Option (TimerInfo × List (Place × TimerInfo)) → Type 0
Next last xs none = All (λ e. same_place e.0 work ≡ false) xs
Next last xs (some (t, rest)) = IsFair t × (t.expires ≡ last) × All (Busy last) rest

pub next_work-Next :
    (last : ℕ)
    → last < 2 ^ 32
    → (xs : List (Place × TimerInfo)) → All (Busy last) xs
    → Next last xs (next_work xs)
unfolding next_work
next_work-Next last l [] a = tt
next_work-Next last l ((p, t) ∷ xs) (a, more) = elim (Bool-cases (same_place p work)) [
  | inl e ↦ rw e (a.0, work-now last l p t.expires e a.1, more)
  | inr e ↦ rw e (after (next_work xs) (next_work-Next last l xs more) e)
]
  where
    after :
        (o : Option (TimerInfo × List (Place × TimerInfo)))
        → Next last xs o
        → same_place p work ≡ false
        → Next last ((p, t) ∷ xs) (elim o as (λ o. Option (TimerInfo × List (Place × TimerInfo))) [
          | none ↦ none
          | some (u, others) ↦ some (u, (p, t) ∷ others)
        ])
    after none n e = (e, n)
    after (some (u, others)) n e = (n.0, n.1, (a, n.2))

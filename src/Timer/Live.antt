-- ===== src/Timer/Live.antt =====
-- Every timer is called back in time, while the clock reads and no call removes it.
use libsvr.Common.{
  ℕ, zero, suc, ◌%◌, ◌^◌, ◌<◌, ◌≡◌, ◌≢◌, ◌⊎◌, refl, sym, ap, subst, ◌∙◌, arith, Bool-cases, inl,
  inr, true, false, Option, none, some, List, [], ◌∷◌, length, All, if◌then◌else◌, if_both, add32,
}
use libsvr.Timer.{
  Place, tv1, work, TimerInfo, TimerManager, same_place, add_timer, Call, calls, is_zero,
  counted_down, next_work, start_work, cascade_due, Run, expire, run_work, run_tick,
}
use libsvr.Timer.Wheels.{Fits, Fits-not_now}
use libsvr.Timer.Work.{Busy, IsFairCall, Next, next_work-Next}
use libsvr.Timer.Count.{works, works-le-length, run_work_ends}
use libsvr.Timer.Waits.{
  Waits, Spares, Waits-add_timer, cascade_due-Waits, start_work-Waits, calls-Waits, NextOr,
  next_work-NextOr,
}
use libsvr.Timer.Safe.{
  Working, IsTimely, check_time_keeps, expire-Working, run_work-Working, start-Working,
}

-- The callback of `t` is in the log, in the tick at which `t` expires.
abbrev pub Called : TimerInfo → List (ℕ × TimerInfo) → Type 0
Called t [] = ⊥
Called t (f ∷ log) = ((f.1.addr ≡ t.addr) × (f.0 ≡ t.expires)) ⊎ Called t log

-- The timer was called back, or it waits and does not expire now.
abbrev pub Settled : ℕ → TimerInfo → TimerManager → List (ℕ × TimerInfo) → Type 0
Settled last t m log = Called t log ⊎ (Waits t m.placed × (t.expires ≢ last))

-- at the end of the work, a timer that waits does not expire now
Waits-not_now :
    (last : ℕ)
    → last < 2 ^ 32
    → (t : TimerInfo) (xs : List (Place × TimerInfo)) → works xs ≡ 0
    → All (Busy last) xs
    → Waits t xs
    → t.expires ≢ last
unfolding works
Waits-not_now last l t [] z a w = absurd w
Waits-not_now last l t (e ∷ xs) z (a, more) (inr w) =
    Waits-not_now last l t xs (ground arith) more w
Waits-not_now last l t (e ∷ xs) z ((fair, b), more) (inl h) =
    elim (Bool-cases (same_place e.0 work)) [
      | inl s ↦ absurd (ground arith)
      | inr s ↦ subst (λ u. u.expires ≢ last) h (later b s)
    ]
  where
    later :
        ((same_place e.0 work ≡ true) × (e.1.expires ≡ last))
          ⊎ (Fits 1 1 1 1 last e.1.expires e.0 × (same_place e.0 (tv1 (last % 2 ^ 8)) ≡ false))
        → same_place e.0 work ≡ false
        → e.1.expires ≢ last
    later (inl k) s = cc
    later (inr (fits, n)) s = Fits-not_now last e.1.expires l fair.0 e.0 n fits

module _ (get_tick : ℕ → ℕ) (on_timer : List (ℕ × TimerInfo) → List Call) (tick run_time : ℕ)
    (t : TimerInfo) (spares : (log : List (ℕ × TimerInfo)) → All (Spares t) (on_timer log)) where
  -- what a round of the work may do to a timer that waits or was called
  abbrev pub Alive : Run → Type 0
  Alive r = Called t r.log ⊎ Waits t r.mgr.placed

  expire-Alive :
      (r : Run) (u : TimerInfo) → Alive r → Alive (expire get_tick on_timer tick run_time r u)
  unfolding expire
  expire-Alive r u a =
      let info : TimerInfo = record u { count = counted_down u.count } in
      let log : List (ℕ × TimerInfo) = (r.mgr.last_tick, info) ∷ r.log in
      let after = calls (r.mgr, info) (on_timer log) in
      let again : TimerInfo = record after.1 { expires = add32 after.0.last_tick after.1.elapse } in
      let P : Run → Type 0 = λ s. Alive s in
      if_both P (is_zero u.count) a (
        check_time_keeps get_tick on_timer (λ m lg. Called t lg ⊎ Waits t m.placed) tick run_time
          (record r {
            log = log;
            mgr = if is_zero after.1.count then after.0 else add_timer after.0 again;
          })
          (elim a [
            | inl c ↦ inl (inr c)
            | inr w ↦
                let kept = calls-Waits t (r.mgr, info) (on_timer log) (spares log) w in
                inr (
                  if_both (λ (m : TimerManager). Waits t m.placed) (is_zero after.1.count) kept
                    (Waits-add_timer t after.0 again kept))
          ]))

  expire-Called :
      (r : Run)
      → is_zero t.count ≡ false
      → t.expires ≡ r.mgr.last_tick
      → Called t (expire get_tick on_timer tick run_time r t).log
  unfolding expire
  expire-Called r n now =
      let info : TimerInfo = record t { count = counted_down t.count } in
      let log : List (ℕ × TimerInfo) = (r.mgr.last_tick, info) ∷ r.log in
      let after = calls (r.mgr, info) (on_timer log) in
      let again : TimerInfo = record after.1 { expires = add32 after.0.last_tick after.1.elapse } in
      rw n (
        check_time_keeps get_tick on_timer (λ m lg. Called t lg) tick run_time
          (record r {
            log = log;
            mgr = if is_zero after.1.count then after.0 else add_timer after.0 again;
          })
          (inl (refl, sym now)))

  module _ (fair : (log : List (ℕ × TimerInfo)) → All IsFairCall (on_timer log))
      (counts : is_zero t.count ≡ false) where
    run_work-Alive :
        (last n : ℕ) (r : Run)
        → last < 2 ^ 32
        → Working last r
        → Alive r
        → Alive (run_work get_tick on_timer tick run_time n r)
    unfolding run_work
    run_work-Alive last zero r l w a = a
    run_work-Alive last (suc n) r l w a =
        go (next_work r.mgr.placed) (next_work-Next last l r.mgr.placed w.0.1)
          (elim a [ inl c ↦ inl c | inr v ↦ inr (next_work-NextOr t r.mgr.placed v) ])
          (λ s k b. run_work-Alive last n s l k b)
      where
        go :
            (o : Option (TimerInfo × List (Place × TimerInfo)))
            → Next last r.mgr.placed o
            → Called t r.log ⊎ NextOr t r.mgr.placed o
            → ((s : Run)
                → Working last s
                → Alive s
                → Alive (run_work get_tick on_timer tick run_time n s))
            → Alive (elim o as (λ o. Run) [
              | none ↦ r
              | some (u, rest) ↦ run_work get_tick on_timer tick run_time n (
                  expire get_tick on_timer tick run_time
                    (record r { mgr = record r.mgr { placed = rest } })
                    u)
            ])
        go none f c keep = a
        go (some (u, rest)) f c keep =
            let s : Run = record r { mgr = record r.mgr { placed = rest } } in
            keep (expire get_tick on_timer tick run_time s u)
              (expire-Working get_tick on_timer fair last tick run_time s u l ((w.0.0, f.2), w.1)
                f.0 f.1)
              (elim c [
                | inl k ↦ expire-Alive s u (inl k)
                | inr (inl h) ↦ inl (
                    subst (λ v. Called t (expire get_tick on_timer tick run_time s v).log) (sym h)
                      (expire-Called s counts (ap (λ v. v.expires) (sym h) ∙ f.1 ∙ sym w.0.0)))
                | inr (inr v) ↦ expire-Alive s u (inr v)
              ])

    -- After a tick the timer was called back, or it waits and did not expire.
    pub run_tick-Settled :
        (r : Run)
        → IsTimely r
        → Alive r
        → let s = run_tick get_tick on_timer tick run_time r in
          Settled r.mgr.last_tick t s.mgr s.log × (s.mgr.last_tick ≡ add32 r.mgr.last_tick 1)
    unfolding run_tick
    run_tick-Settled r timely a =
        let last = r.mgr.last_tick in
        let l = timely.0.tick in
        let m = start_work (cascade_due r.mgr) in
        let n = length m.placed in
        let r' : Run = record r { mgr = m } in
        let begun = start-Working get_tick on_timer fair r timely in
        let w = run_work-Working get_tick on_timer fair last tick run_time n r' l begun in
        let ended = run_work_ends get_tick on_timer tick run_time n r' (works-le-length m.placed) in
        let alive = run_work-Alive last n r' l begun (elim a [
          | inl c ↦ inl c
          | inr v ↦ inr (start_work-Waits t (cascade_due r.mgr) (cascade_due-Waits t r.mgr v))
        ]) in
        let done = run_work get_tick on_timer tick run_time n r' in
        (
          elim alive [
            | inl c ↦ inl c
            | inr v ↦ inr (v, Waits-not_now last l t done.mgr.placed ended w.0.1 v)
          ],
          ap (λ k. add32 k 1) w.0.0,
        )

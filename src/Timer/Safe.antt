-- ===== src/Timer/Safe.antt =====
-- No callback is early or late: each timer is handed over in the tick at which it expires.
use libsvr.Common.{
  ℕ, zero, suc, ◌+◌, ◌%◌, ◌^◌, ◌<◌, ◌≡◌, ◌⊎◌, refl, sym, ap, subst, ◌∙◌, arith, Bool-cases, inl,
  inr, true, false, Option, none, some, List, [], ◌∷◌, length, All, ltb, ◌==◌, if◌then◌else◌,
  if_both, add32, sub32,
}
use libsvr.Timer.{
  Place, tv1, work, TimerInfo, TimerManager, same_place, add_timer, Call, calls, is_zero,
  counted_down, next_work, start_work, cascade_due, Run, check_time, expire, run_work, run_tick,
  update_loop, timer_update,
}
use libsvr.Timer.Wheels.{Fits, Fits-next}
use libsvr.Timer.Count.{works, works-le-length, run_work_ends}
use libsvr.Timer.Cascade.{IsFair, Stands, Has, cascade_due-Stands}
use libsvr.Timer.Work.{
  Busy, IsFairCall, add_later, calls-IsBusy, Next, next_work-Next, start_work-Has,
}

-- A callback that was called in the tick at which its timer expires.
abbrev pub IsOnTime : ℕ × TimerInfo → Type 0
IsOnTime f = f.1.expires ≡ f.0

-- A manager between two ticks.
pub record IsReady (m : TimerManager) : Type 0 where
  pub tick : m.last_tick < 2 ^ 32
  pub stands : All (Stands 0 0 0 0 m.last_tick) m.placed

abbrev pub Working : ℕ → Run → Type 0
Working last r = Has (Busy last) last r.mgr × All IsOnTime r.log

abbrev pub IsTimely : Run → Type 0
IsTimely r = IsReady r.mgr × All IsOnTime r.log

-- With nothing left in `work_list` the timers stand where they may for the next tick.
next-All :
    (last : ℕ)
    → last < 2 ^ 32
    → (xs : List (Place × TimerInfo)) → works xs ≡ 0
    → All (Busy last) xs
    → All (Stands 0 0 0 0 (add32 last 1)) xs
unfolding works
next-All last l [] n a = tt
next-All last l ((p, t) ∷ xs) n ((f, b), more) = elim (Bool-cases (same_place p work)) [
  | inl e ↦ absurd (ground arith)
  | inr e ↦ ((f, stays b e), next-All last l xs (ground arith) more)
]
  where
    stays :
        ((same_place p work ≡ true) × (t.expires ≡ last))
          ⊎ (Fits 1 1 1 1 last t.expires p × (same_place p (tv1 (last % 2 ^ 8)) ≡ false))
        → same_place p work ≡ false
        → Fits 0 0 0 0 (add32 last 1) t.expires p
    stays (inl w) e = cc
    stays (inr (fits, n)) e = Fits-next last t.expires l f.0 p n fits

module _ (get_tick : ℕ → ℕ) (on_timer : List (ℕ × TimerInfo) → List Call) where
  pub check_time_keeps :
      (P : TimerManager → List (ℕ × TimerInfo) → Type 0) (tick run_time : ℕ) (r : Run)
      → P r.mgr r.log
      → P
          (check_time get_tick on_timer tick run_time r).mgr
          (check_time get_tick on_timer tick run_time r).log
  unfolding check_time
  check_time_keeps P tick run_time r p = elim (Bool-cases (run_time == 0)) [
    | inl e ↦ rw e p
    | inr e ↦ rw e (elim (Bool-cases r.time_out) [ inl f ↦ rw f p | inr f ↦ rw f p ])
  ]

  module _ (fair : (log : List (ℕ × TimerInfo)) → All IsFairCall (on_timer log)) where
    pub expire-Working :
        (last tick run_time : ℕ) (r : Run) (t : TimerInfo)
        → last < 2 ^ 32
        → Working last r
        → IsFair t
        → t.expires ≡ last
        → Working last (expire get_tick on_timer tick run_time r t)
    unfolding expire
    expire-Working last tick run_time r t l (h, on) f now = elim (Bool-cases (is_zero t.count)) [
      | inl e ↦ rw e (h, on)
      | inr e ↦
          let info : TimerInfo = record t { count = counted_down t.count } in
          let log : List (ℕ × TimerInfo) = (r.mgr.last_tick, info) ∷ r.log in
          let after = calls (r.mgr, info) (on_timer log) in
          let busy = calls-IsBusy last l (r.mgr, info) (on_timer log) (h, (f.1, f.2)) (fair log) in
          let again : TimerInfo = record after.1 {
            expires = add32 after.0.last_tick after.1.elapse;
          } in
          let armed =
            add_later last l after.0 again busy.0 busy.1
              (ap (λ n. add32 n after.1.elapse) busy.0.0) in
          let on' : All IsOnTime log = (now ∙ sym h.0, on) in
          rw e (
            check_time_keeps (λ m lg. Has (Busy last) last m × All IsOnTime lg) tick run_time
              (record r {
                log = log;
                mgr = if is_zero after.1.count then after.0 else add_timer after.0 again;
              })
              (elim (Bool-cases (is_zero after.1.count)) [
                | inl z ↦ rw z (busy.0, on')
                | inr z ↦ rw z (armed, on')
              ]))
    ]

    pub run_work-Working :
        (last tick run_time n : ℕ) (r : Run)
        → last < 2 ^ 32
        → Working last r
        → Working last (run_work get_tick on_timer tick run_time n r)
    unfolding run_work
    run_work-Working last tick run_time zero r l w = w
    run_work-Working last tick run_time (suc n) r l w =
        go (next_work r.mgr.placed) (next_work-Next last l r.mgr.placed w.0.1)
          (λ s k. run_work-Working last tick run_time n s l k)
      where
        go :
            (o : Option (TimerInfo × List (Place × TimerInfo)))
            → Next last r.mgr.placed o
            → ((s : Run)
                → Working last s
                → Working last (run_work get_tick on_timer tick run_time n s))
            → Working last (elim o as (λ o. Run) [
              | none ↦ r
              | some (t, rest) ↦ run_work get_tick on_timer tick run_time n (
                  expire get_tick on_timer tick run_time
                    (record r { mgr = record r.mgr { placed = rest } })
                    t)
            ])
        go none f keep = w
        go (some (t, rest)) f keep =
            keep
              (expire get_tick on_timer tick run_time
                (record r { mgr = record r.mgr { placed = rest } }) t)
              (expire-Working last tick run_time (record r { mgr = record r.mgr { placed = rest } })
                t l ((w.0.0, f.2), w.1) f.0 f.1)

    -- the state in which the timers of a tick begin to be worked off
    pub start-Working :
        (r : Run)
        → IsTimely r
        → Working r.mgr.last_tick (record r { mgr = start_work (cascade_due r.mgr) })
    start-Working r (ready, on) = (
      start_work-Has r.mgr.last_tick ready.tick (cascade_due r.mgr)
          (cascade_due-Stands r.mgr ready.tick (refl, ready.stands)),
      on,
    )

    pub run_tick-IsTimely :
        (tick run_time : ℕ) (r : Run)
        → IsTimely r
        → IsTimely (run_tick get_tick on_timer tick run_time r)
    unfolding run_tick
    run_tick-IsTimely tick run_time r (ready, on) =
        let last = r.mgr.last_tick in
        let l = ready.tick in
        let m = start_work (cascade_due r.mgr) in
        let n = length m.placed in
        let done = run_work get_tick on_timer tick run_time n (record r { mgr = m }) in
        let w =
          run_work-Working last tick run_time n (record r { mgr = m }) l
            (start-Working r (ready, on)) in
        let ended =
          run_work_ends get_tick on_timer tick run_time n (record r { mgr = m })
            (works-le-length m.placed) in
        (
          record {
            tick = omega arith;
            stands =
                subst (λ k. All (Stands 0 0 0 0 (add32 k 1)) done.mgr.placed) (sym w.0.0)
                  (next-All last l done.mgr.placed ended w.0.1);
          },
          w.1,
        )

    pub run_tick-last :
        (tick run_time : ℕ) (r : Run)
        → IsTimely r
        → (run_tick get_tick on_timer tick run_time r).mgr.last_tick ≡ add32 r.mgr.last_tick 1
    unfolding run_tick
    run_tick-last tick run_time r timely =
        let m = start_work (cascade_due r.mgr) in
        let w =
          run_work-Working r.mgr.last_tick tick run_time (length m.placed) (record r { mgr = m })
            timely.0.tick (start-Working r timely) in
        ap (λ k. add32 k 1) w.0.0

    update_loop-IsTimely :
        (tick run_time n : ℕ) (r : Run)
        → IsTimely r
        → IsTimely (update_loop get_tick on_timer tick run_time n r)
    unfolding update_loop
    update_loop-IsTimely tick run_time zero r t = t
    update_loop-IsTimely tick run_time (suc n) r t =
        let one = run_tick-IsTimely tick run_time r t in
        let more =
          update_loop-IsTimely tick run_time n (run_tick get_tick on_timer tick run_time r) one in
        if_both IsTimely (ltb (sub32 tick r.mgr.last_tick) (2 ^ 31))
          (if_both IsTimely (run_tick get_tick on_timer tick run_time r).time_out one more) t

    -- Where no callback asks for a timer that is to expire at once, `timer_update` keeps a manager
    -- whose timers stand where they may, and calls back each timer in the tick at which it expires.
    pub timer_update-IsTimely :
        (m : TimerManager) (run_time : ℕ)
        → IsReady m
        → IsTimely (timer_update get_tick on_timer m run_time)
    unfolding timer_update
    timer_update-IsTimely m run_time ready =
        update_loop-IsTimely (get_tick 0) run_time (sub32 (get_tick 0) m.last_tick + 2)
          (record { mgr = m; time_out = false; reads = 1; log = [] }) (ready, tt)

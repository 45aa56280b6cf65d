-- ===== src/Timer/Ends.antt =====
-- The outer loop of `timer_update` ends, with the tick after the reading of the clock.
use libsvr.Common.{
  ℕ, zero, suc, ◌+◌, ◌^◌, ◌<◌, ◌≡◌, refl, sym, subst, ◌∙◌, arith, false, List, [], All, ltb, lt→ltb,
  ltb→lt, if_chosen, dec_lt, add32, sub32,
}
use libsvr.Timer.{TimerInfo, TimerManager, Call, Run, run_tick, update_loop, timer_update}
use libsvr.Timer.Work.{IsFairCall}
use libsvr.Timer.Safe.{IsReady, IsTimely, run_tick-IsTimely, run_tick-last}
use libsvr.Timer.Update.{run_tick-time_out}

module _ (get_tick : ℕ → ℕ) (on_timer : List (ℕ × TimerInfo) → List Call)
    (fair : (log : List (ℕ × TimerInfo)) → All IsFairCall (on_timer log)) (tick : ℕ)
    (small : tick < 2 ^ 32) where
  update_loop-last :
      (n : ℕ) (r : Run)
      → IsTimely r
      → r.time_out ≡ false
      → sub32 tick r.mgr.last_tick < 2 ^ 31
      → sub32 tick r.mgr.last_tick + 1 < n
      → (update_loop get_tick on_timer tick 0 n r).mgr.last_tick ≡ add32 tick 1
  unfolding update_loop
  update_loop-last zero r timely run near more = absurd (omega arith)
  update_loop-last (suc n) r timely run near more =
      let s = run_tick get_tick on_timer tick 0 r in
      let next = run_tick-last get_tick on_timer fair tick 0 r timely in
      let timely' = run_tick-IsTimely get_tick on_timer fair tick 0 r timely in
      let goes_on = run_tick-time_out get_tick on_timer tick r ∙ run in
      let P : Run → Type 0 = λ u. u.mgr.last_tick ≡ add32 tick 1 in
      let last = r.mgr.last_tick in
      let l = timely.0.tick in
      if_chosen P (ltb (sub32 tick last) (2 ^ 31))
        (λ e.
          if_chosen P s.time_out (λ out. cc (out, goes_on))
            (λ on. elim (dec_lt 0 (sub32 tick last)) [
              | yes some_left ↦
                  let left : sub32 tick s.mgr.last_tick + 1 ≡ sub32 tick last =
                    subst (λ k. sub32 tick k + 1 ≡ sub32 tick last) (sym next) (omega arith) in
                  update_loop-last n s timely' goes_on (omega arith) (omega arith)
              | no none_left ↦
                  let here : s.mgr.last_tick ≡ add32 tick 1 = next ∙ omega arith in stops n s here
            ]))
        (λ e. cc (e, lt→ltb (sub32 tick last) (2 ^ 31) near))
    where
      stops :
          (n : ℕ) (s : Run)
          → s.mgr.last_tick ≡ add32 tick 1
          → (update_loop get_tick on_timer tick 0 n s).mgr.last_tick ≡ add32 tick 1
      stops zero s h = h
      stops (suc n) s h =
          if_chosen (λ (u : Run). u.mgr.last_tick ≡ add32 tick 1)
            (ltb (sub32 tick s.mgr.last_tick) (2 ^ 31))
            (λ e. absurd (past s.mgr.last_tick h (ltb→lt (sub32 tick s.mgr.last_tick) (2 ^ 31) e)))
            (λ e. h)
        where
          past : (k : ℕ) → k ≡ add32 tick 1 → sub32 tick k < 2 ^ 31 → ⊥
          past k h e = omega arith

-- In a manager that is ready, for a reading of the clock less than 2 ^ 31 ticks after the last one and
-- callbacks that ask for no timer that is to expire at once, `timer_update` without a limit of time
-- goes on to the tick after the reading: its loop has rounds enough.
pub timer_update-last :
    (get_tick : ℕ → ℕ) (on_timer : List (ℕ × TimerInfo) → List Call) (m : TimerManager)
    → ((log : List (ℕ × TimerInfo)) → All IsFairCall (on_timer log))
    → IsReady m
    → get_tick 0 < 2 ^ 32
    → sub32 (get_tick 0) m.last_tick < 2 ^ 31
    → (timer_update get_tick on_timer m 0).mgr.last_tick ≡ add32 (get_tick 0) 1
unfolding timer_update
timer_update-last get_tick on_timer m fair ready small near =
    update_loop-last get_tick on_timer fair (get_tick 0) small (sub32 (get_tick 0) m.last_tick + 2)
      (record { mgr = m; time_out = false; reads = 1; log = [] }) (ready, tt) refl near
      (omega arith)

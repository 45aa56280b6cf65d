-- ===== src/Timer/Update.antt =====
-- `timer_update` without a limit of time: every timer that is due is called back.
use libsvr.Common.{
  ℕ, zero, suc, ◌+◌, ◌^◌, ◌≤◌, ◌<◌, ◌≡◌, ◌≢◌, refl, sym, subst, ◌∙◌, arith, inl, inr, false, Option,
  none, some, List, [], ◌∷◌, length, All, ltb, lt→ltb, if◌then◌else◌, if_both, if_chosen, add32,
  sub32,
}
use libsvr.Timer.{
  Place, TimerInfo, TimerManager, add_timer, Call, calls, is_zero, counted_down, next_work,
  start_work, cascade_due, Run, check_time, expire, run_work, run_tick, update_loop, timer_update,
}
use libsvr.Timer.Cascade.{IsFair, Stands}
use libsvr.Timer.Work.{IsFairCall}
use libsvr.Timer.Waits.{Waits, Spares}
use libsvr.Timer.Safe.{IsReady, IsTimely, check_time_keeps, run_tick-IsTimely}
use libsvr.Timer.Live.{Called, run_tick-Settled}

Waits-IsFair :
    (s2 s3 s4 s5 last : ℕ) (t : TimerInfo) (xs : List (Place × TimerInfo))
    → All (Stands s2 s3 s4 s5 last) xs
    → Waits t xs
    → IsFair t
Waits-IsFair s2 s3 s4 s5 last t [] a w = absurd w
Waits-IsFair s2 s3 s4 s5 last t (e ∷ xs) (a, more) (inl h) = subst IsFair h a.0
Waits-IsFair s2 s3 s4 s5 last t (e ∷ xs) (a, more) (inr w) =
    Waits-IsFair s2 s3 s4 s5 last t xs more w

-- one tick less is left to an expiry and to the reading
sub32-add :
    (x y last : ℕ)
    → x < 2 ^ 32
    → y < 2 ^ 32
    → last < 2 ^ 32
    → x ≢ last
    → sub32 x last ≤ sub32 y last
    → (sub32 x (add32 last 1) ≤ sub32 y (add32 last 1))
      × (sub32 y (add32 last 1) + 1 ≡ sub32 y last)
sub32-add x y last a b c n h = omega arith

module _ (get_tick : ℕ → ℕ) (on_timer : List (ℕ × TimerInfo) → List Call) (tick : ℕ) where
  module _ (run_time : ℕ) (t : TimerInfo) where
    expire-Called :
        (r : Run) (u : TimerInfo)
        → Called t r.log
        → Called t (expire get_tick on_timer tick run_time r u).log
    unfolding expire
    expire-Called r u c =
        let info : TimerInfo = record u { count = counted_down u.count } in
        let log : List (ℕ × TimerInfo) = (r.mgr.last_tick, info) ∷ r.log in
        let after = calls (r.mgr, info) (on_timer log) in
        let again : TimerInfo = record after.1 {
          expires = add32 after.0.last_tick after.1.elapse;
        } in
        if_both (λ (s : Run). Called t s.log) (is_zero u.count) c
          (check_time_keeps get_tick on_timer (λ m lg. Called t lg) tick run_time
            (record r {
              log = log;
              mgr = if is_zero after.1.count then after.0 else add_timer after.0 again;
            })
            (inr c))

    run_work-Called :
        (n : ℕ) (r : Run)
        → Called t r.log
        → Called t (run_work get_tick on_timer tick run_time n r).log
    unfolding run_work
    run_work-Called zero r c = c
    run_work-Called (suc n) r c = go (next_work r.mgr.placed) (λ s k. run_work-Called n s k)
      where
        go :
            (o : Option (TimerInfo × List (Place × TimerInfo)))
            → ((s : Run)
                → Called t s.log
                → Called t (run_work get_tick on_timer tick run_time n s).log)
            → Called t
                (elim o as (λ o. Run) [
                  | none ↦ r
                  | some (u, rest) ↦ run_work get_tick on_timer tick run_time n (
                      expire get_tick on_timer tick run_time
                        (record r { mgr = record r.mgr { placed = rest } })
                        u)
                ]).log
        go none keep = c
        go (some (u, rest)) keep =
            keep
              (expire get_tick on_timer tick run_time
                (record r { mgr = record r.mgr { placed = rest } }) u)
              (expire-Called (record r { mgr = record r.mgr { placed = rest } }) u c)

    run_tick-Called :
        (r : Run) → Called t r.log → Called t (run_tick get_tick on_timer tick run_time r).log
    unfolding run_tick
    run_tick-Called r c =
        let m = start_work (cascade_due r.mgr) in
        run_work-Called (length m.placed) (record r { mgr = m }) c

    update_loop-Called :
        (n : ℕ) (r : Run)
        → Called t r.log
        → Called t (update_loop get_tick on_timer tick run_time n r).log
    unfolding update_loop
    update_loop-Called zero r c = c
    update_loop-Called (suc n) r c =
        let one = run_tick-Called r c in
        let P : Run → Type 0 = λ s. Called t s.log in
        if_both P (ltb (sub32 tick r.mgr.last_tick) (2 ^ 31))
          (if_both P (run_tick get_tick on_timer tick run_time r).time_out one
            (update_loop-Called n (run_tick get_tick on_timer tick run_time r) one))
          c

  expire-time_out :
      (r : Run) (u : TimerInfo) → (expire get_tick on_timer tick 0 r u).time_out ≡ r.time_out
  unfolding expire check_time
  expire-time_out r u = if_both (λ (s : Run). s.time_out ≡ r.time_out) (is_zero u.count) refl refl

  run_work-time_out :
      (n : ℕ) (r : Run) → (run_work get_tick on_timer tick 0 n r).time_out ≡ r.time_out
  unfolding run_work
  run_work-time_out zero r = refl
  run_work-time_out (suc n) r = go (next_work r.mgr.placed) (λ s. run_work-time_out n s)
    where
      go :
          (o : Option (TimerInfo × List (Place × TimerInfo)))
          → ((s : Run) → (run_work get_tick on_timer tick 0 n s).time_out ≡ s.time_out)
          → (elim o as (λ o. Run) [
            | none ↦ r
            | some (u, rest) ↦ run_work get_tick on_timer tick 0 n (
                expire get_tick on_timer tick 0
                  (record r { mgr = record r.mgr { placed = rest } })
                  u)
          ]).time_out
            ≡ r.time_out
      go none keep = refl
      go (some (u, rest)) keep =
          keep
            (expire get_tick on_timer tick 0 (record r { mgr = record r.mgr { placed = rest } }) u)
          ∙ expire-time_out (record r { mgr = record r.mgr { placed = rest } }) u

  pub run_tick-time_out : (r : Run) → (run_tick get_tick on_timer tick 0 r).time_out ≡ r.time_out
  unfolding run_tick
  run_tick-time_out r =
      let m = start_work (cascade_due r.mgr) in
      run_work-time_out (length m.placed) (record r { mgr = m })

  module _ (t : TimerInfo) (spares : (log : List (ℕ × TimerInfo)) → All (Spares t) (on_timer log))
      (fair : (log : List (ℕ × TimerInfo)) → All IsFairCall (on_timer log))
      (counts : is_zero t.count ≡ false) (small : tick < 2 ^ 32) where
    update_loop-calls :
        (n : ℕ) (r : Run)
        → IsTimely r
        → Waits t r.mgr.placed
        → r.time_out ≡ false
        → sub32 t.expires r.mgr.last_tick ≤ sub32 tick r.mgr.last_tick
        → sub32 tick r.mgr.last_tick < 2 ^ 31
        → sub32 tick r.mgr.last_tick < n
        → Called t (update_loop get_tick on_timer tick 0 n r).log
    unfolding update_loop
    update_loop-calls zero r timely w run due near more = absurd (omega arith)
    update_loop-calls (suc n) r timely w run due near more =
        let s = run_tick get_tick on_timer tick 0 r in
        let (settled, next) =
          run_tick-Settled get_tick on_timer tick 0 t spares fair counts r timely (inr w) in
        let timely' = run_tick-IsTimely get_tick on_timer fair tick 0 r timely in
        let f = Waits-IsFair 0 0 0 0 r.mgr.last_tick t r.mgr.placed timely.0.stands w in
        let goes_on = run_tick-time_out r ∙ run in
        let P : Run → Type 0 = λ u. Called t u.log in
        let last = r.mgr.last_tick in
        if_chosen P (ltb (sub32 tick last) (2 ^ 31))
          (λ e.
            if_chosen P s.time_out (λ out. cc (out, goes_on))
              (λ on. elim settled [
                | inl c ↦ update_loop-Called 0 t n s c
                | inr (w', later) ↦
                    let steps = sub32-add t.expires tick last f.0 small timely.0.tick later due in
                    let left : sub32 tick s.mgr.last_tick + 1 ≡ sub32 tick last =
                      subst (λ k. sub32 tick k + 1 ≡ sub32 tick last) (sym next) steps.1 in
                    update_loop-calls n s timely' w' goes_on
                      (subst (λ k. sub32 t.expires k ≤ sub32 tick k) (sym next) steps.0)
                      (omega arith) (omega arith)
              ]))
          (λ e. cc (e, lt→ltb (sub32 tick last) (2 ^ 31) near))

-- A timer that waits with a count that is not 0, whose `addr` no callback names, and that expires up
-- to the reading of the clock (at most 2 ^ 31 ticks after the last one): `timer_update` without a
-- limit of time calls it back in the tick at which it expires.
pub timer_update-calls :
    (get_tick : ℕ → ℕ) (on_timer : List (ℕ × TimerInfo) → List Call) (m : TimerManager)
    (t : TimerInfo)
    → ((log : List (ℕ × TimerInfo)) → All (Spares t) (on_timer log))
    → ((log : List (ℕ × TimerInfo)) → All IsFairCall (on_timer log))
    → IsReady m
    → Waits t m.placed
    → is_zero t.count ≡ false
    → get_tick 0 < 2 ^ 32
    → sub32 t.expires m.last_tick ≤ sub32 (get_tick 0) m.last_tick
    → sub32 (get_tick 0) m.last_tick < 2 ^ 31
    → Called t (timer_update get_tick on_timer m 0).log
unfolding timer_update
timer_update-calls get_tick on_timer m t spares fair ready w counts small due near =
    update_loop-calls get_tick on_timer (get_tick 0) t spares fair counts small
      (sub32 (get_tick 0) m.last_tick + 2)
      (record { mgr = m; time_out = false; reads = 1; log = [] }) (ready, tt) w refl due near
      (omega arith)

-- ===== src/Timer/Life.antt =====
-- The life of a manager: what its owner may call keeps it ready for the next tick.
use libsvr.Common.{ℕ, ◌^◌, ◌<◌, refl, arith, Option-cases, inl, inr, List, All, add32}
use libsvr.Common.Int.{ℤ}
use libsvr.Timer.{
  TimerInfo, TimerManager, Call, add_timer, create_timer_manager, timer_add, detach, pending,
  modified, timer_mod, timer_del, timer_update,
}
use libsvr.Timer.Cascade.{IsFair, Stands, add_timer-Has, place-Stands}
use libsvr.Timer.Work.{IsElapse, IsFairCall, detach-All}
use libsvr.Timer.Safe.{IsOnTime, IsReady, timer_update-IsTimely}

-- A call of the owner, between two runs of `timer_update` or one of them.
pub data Step : TimerManager → TimerManager → Type 1 where
  added :
      (m : TimerManager) (addr elapse : ℕ) (count : ℤ) (user_data : ℕ)
      → IsElapse elapse
      → Step m (timer_add m addr elapse count user_data)
  changed :
      (m : TimerManager) (addr elapse : ℕ) (count : ℤ) (user_data : ℕ)
      → IsElapse elapse
      → Step m (timer_mod m addr elapse count user_data)
  deleted : (m : TimerManager) (addr : ℕ) → Step m (timer_del m addr)
  updated :
      (m : TimerManager) (get_tick : ℕ → ℕ) (on_timer : List (ℕ × TimerInfo) → List Call)
      (run_time : ℕ)
      → ((log : List (ℕ × TimerInfo)) → All IsFairCall (on_timer log))
      → Step m (timer_update get_tick on_timer m run_time).mgr

pub data Lives : TimerManager → Type 1 where
  created : (tick : ℕ) → tick < 2 ^ 32 → Lives (create_timer_manager tick)
  later : {m m' : TimerManager} → Lives m → Step m m' → Lives m'

add_timer-IsReady :
    (m : TimerManager) (t : TimerInfo) → IsReady m → IsFair t → IsReady (add_timer m t)
unfolding add_timer
add_timer-IsReady m t r f = record {
  tick = r.tick;
  stands =
      (add_timer-Has (Stands 0 0 0 0 m.last_tick) m.last_tick m t (refl, r.stands)
        (place-Stands m.last_tick r.tick 0 0 0 0 (omega arith) t f)).1;
}

detach-IsReady :
    (m : TimerManager) (addr : ℕ) → IsReady m → IsReady (record m { placed = detach addr m.placed })
detach-IsReady m addr r = record {
  tick = r.tick;
  stands = detach-All m.last_tick r.tick (Stands 0 0 0 0 m.last_tick) addr m.placed r.stands;
}

Step-IsReady : {m m' : TimerManager} → Step m m' → IsReady m → IsReady m'
unfolding timer_add timer_del timer_mod modified
Step-IsReady (added m addr elapse count user_data f) r =
    add_timer-IsReady m
      (record {
        addr = addr;
        expires = add32 m.last_tick elapse;
        elapse = elapse;
        count = count;
        user_data = user_data;
      })
      r (omega arith, f.0, f.1)
Step-IsReady (changed m addr elapse count user_data f) r =
    elim (Option-cases (pending addr m.placed)) [
      | inl e ↦ rw (e, timer_mod) r
      | inr (t, e) ↦
          rw (e, timer_mod)
            (add_timer-IsReady (record m { placed = detach addr m.placed })
              (modified m.last_tick t elapse count user_data) (detach-IsReady m addr r)
              (omega arith, f.0, f.1))
    ]
Step-IsReady (deleted m addr) r = detach-IsReady m addr r
Step-IsReady (updated m get_tick on_timer run_time fair) r =
    (timer_update-IsTimely get_tick on_timer fair m run_time r).0

-- Every manager that lives, by the calls of its owner and of callbacks that ask for no timer that is
-- to expire at once, is ready for the next tick.
pub Lives-IsReady : {m : TimerManager} → Lives m → IsReady m
unfolding create_timer_manager
Lives-IsReady (created tick l) = record { tick = l; stands = tt }
Lives-IsReady (later v s) = Step-IsReady s (Lives-IsReady v)

-- In every manager that lives, by the calls of its owner and of callbacks none of which asks for a
-- timer that is to expire at once, each run of `timer_update` calls back a timer only in the tick at
-- which it expires.
pub Lives-IsOnTime :
    {m : TimerManager}
    → Lives m
    → (get_tick : ℕ → ℕ) (on_timer : List (ℕ × TimerInfo) → List Call) (run_time : ℕ)
    → ((log : List (ℕ × TimerInfo)) → All IsFairCall (on_timer log))
    → All IsOnTime (timer_update get_tick on_timer m run_time).log
Lives-IsOnTime {m} v get_tick on_timer run_time fair =
    (timer_update-IsTimely get_tick on_timer fair m run_time (Lives-IsReady v)).1

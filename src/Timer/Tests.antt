-- ===== src/Timer/Tests.antt =====
-- The wheels at concrete inputs.
use libsvr.Common.{
  ℕ, ◌≡◌, refl, arith, inl, inr, false, List, [], ◌∷◌, All, map, if◌then◌else◌, ◌==◌, add32,
}
use libsvr.Common.Int.{pos, negsuc}
use libsvr.Timer.{
  tv1, TimerInfo, TimerManager, place, add_timer, add_all, at_place, elsewhere, cascade,
  cascade_due, create_timer_manager, timer_add, timer_mod, timer_del, modified, detach, pending,
  Call, add, call, calls, next_work, start_work, Run, check_time, expire, run_work, run_tick,
  update_loop, timer_update,
}
use libsvr.Timer.Work.{IsFairCall}
use libsvr.Timer.Safe.{IsOnTime}
use libsvr.Timer.Waits.{Waits, Spares}
use libsvr.Timer.Live.{Called}
use libsvr.Timer.Update.{timer_update-calls}
use libsvr.Timer.Ends.{timer_update-last}
use libsvr.Timer.Life.{Lives, created, later, added, Lives-IsReady, Lives-IsOnTime}

-- the first reading of the clock, and all others
abbrev clock : ℕ → ℕ
clock n = 260

-- The callback of the timer at 1 adds a timer, those of the others do nothing.
abbrev on_timer : List (ℕ × TimerInfo) → List Call
on_timer [] = []
on_timer ((tick, t) ∷ log) = if t.addr == 1 then add 9 7 (pos 1) 0 ∷ [] else []

abbrev start : TimerManager
start = create_timer_manager 250

abbrev one : TimerManager
one = timer_add start 1 3 (pos 1) 0

abbrev two : TimerManager
two = timer_add one 2 10 (negsuc 0) 0

-- the timer at 1 in the tick 253, and at 260 the one at 2 and the one that the callback added
update_run :
    map {B = ℕ × ℕ} (λ f. (f.0, f.1.addr)) (timer_update clock on_timer two 0).log
    ≡ (260, 9) ∷ (260, 2) ∷ (253, 1) ∷ []
unfolding create_timer_manager timer_add add_timer place timer_update update_loop run_tick run_work
    expire check_time calls call next_work start_work cascade_due cascade add_all at_place elsewhere
update_run = refl

-- The timer at 2 is changed to expire at once, and the one at 1 is deleted.
modify_run : map (λ e. e.1.expires) (timer_mod (timer_del two 1) 2 5 (pos 1) 0).placed ≡ 255 ∷ []
unfolding create_timer_manager timer_add add_timer place timer_mod timer_del detach pending modified
modify_run = refl

fair : (log : List (ℕ × TimerInfo)) → All IsFairCall (on_timer log)
fair [] = tt
fair ((tick, t) ∷ log) = ground arith

two-Lives : Lives two
two-Lives =
    later (later (created 250 (omega arith)) (added start 1 3 (pos 1) 0 (omega arith)))
      (added one 2 10 (negsuc 0) 0 (omega arith))

Lives-IsOnTime_example : All IsOnTime (timer_update clock on_timer two 0).log
Lives-IsOnTime_example = Lives-IsOnTime two-Lives clock on_timer 0 fair

-- the timer at 2 as it waits
abbrev second : TimerInfo
second = record { addr = 2; expires = 260; elapse = 10; count = negsuc 0; user_data = 0 }

spares : (log : List (ℕ × TimerInfo)) → All (Spares second) (on_timer log)
spares [] = tt
spares ((tick, t) ∷ log) = ground arith

second-Waits : Waits second two.placed
unfolding create_timer_manager timer_add add_timer
second-Waits = inr (inl refl)

timer_update-calls_example : Called second (timer_update clock on_timer two 0).log
unfolding create_timer_manager timer_add add_timer
timer_update-calls_example =
    timer_update-calls clock on_timer two second spares fair (Lives-IsReady two-Lives) second-Waits
      refl (omega arith) (omega arith) (omega arith)

abbrev busy : Run
busy = record {
  mgr = start_work (record start { placed = (tv1 250, second) ∷ [] });
  time_out = false;
  reads = 1;
  log = [];
}

timer_update-last_example : (timer_update clock on_timer two 0).mgr.last_tick ≡ add32 260 1
unfolding create_timer_manager timer_add add_timer
timer_update-last_example =
    timer_update-last clock on_timer two fair (Lives-IsReady two-Lives) (omega arith) (omega arith)

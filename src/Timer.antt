-- ===== src/Timer.antt =====
-- The timing wheels of src/timer.c (structs `timer_info` and `timer_manager` of
-- src/lib_svr_common_def.h). All the lists of a manager are one list, `placed`, of timers with the
-- place of each; the timers at one place stand in the order of that list.
pub mod Wheels
pub mod Cascade
pub mod Work
pub mod Count
pub mod Safe
pub mod Waits
pub mod Live
pub mod Update
pub mod Ends
pub mod Life
mod Tests
use libsvr.Common.{
  ℕ, zero, suc, ◌+◌, ◌-◌, ◌/◌, ◌%◌, ◌^◌, Bool, true, false, Option, none, some, List, [], ◌∷◌, ◌++◌,
  map, length, ltb, ◌==◌, not, ◌&&◌, if◌then◌else◌, add32, sub32,
}
use libsvr.Common.Int.{ℤ, pos, negsuc}

-- a slot of one of the five wheels, or `work_list` of `timer_update`
pub data Place : Type 0 where
  tv1 : ℕ → Place
  tv2 : ℕ → Place
  tv3 : ℕ → Place
  tv4 : ℕ → Place
  tv5 : ℕ → Place
  work : Place

abbrev pub same_place : Place → Place → Bool
same_place (tv1 i) (tv1 j) = i == j
same_place (tv2 i) (tv2 j) = i == j
same_place (tv3 i) (tv3 j) = i == j
same_place (tv4 i) (tv4 j) = i == j
same_place (tv5 i) (tv5 j) = i == j
same_place work work = true
same_place p q = false

-- A timer is known by its address.
pub record TimerInfo : Type 0 where
  pub addr : ℕ
  pub expires : ℕ
  pub elapse : ℕ
  pub count : ℤ
  pub user_data : ℕ

pub record TimerManager : Type 0 where
  pub placed : List (Place × TimerInfo)
  pub last_tick : ℕ

-- the slot that `_add_timer` chooses
pub place : ℕ → ℕ → Place
place last expires =
    let idx = sub32 expires last in
    if ltb idx (2 ^ 8)
    then tv1 (expires % 2 ^ 8)
    else if ltb idx (2 ^ 14)
    then tv2 ((expires / 2 ^ 8) % 2 ^ 6)
    else if ltb idx (2 ^ 20)
    then tv3 ((expires / 2 ^ 14) % 2 ^ 6)
    else if ltb idx (2 ^ 26)
    then tv4 ((expires / 2 ^ 20) % 2 ^ 6)
    else tv5 ((expires / 2 ^ 26) % 2 ^ 6)

pub add_timer : TimerManager → TimerInfo → TimerManager
add_timer m t = record m { placed = m.placed ++ ((place m.last_tick t.expires, t) ∷ []) }

-- the timers at a place, and the rest
pub at_place : Place → List (Place × TimerInfo) → List TimerInfo
at_place p [] = []
at_place p ((q, t) ∷ rest) = let more = at_place p rest in if same_place q p then t ∷ more else more

pub elsewhere : Place → List (Place × TimerInfo) → List (Place × TimerInfo)
elsewhere p [] = []
elsewhere p ((q, t) ∷ rest) =
    let more = elsewhere p rest in if same_place q p then more else (q, t) ∷ more

pub add_all : TimerManager → List TimerInfo → TimerManager
add_all m [] = m
add_all m (t ∷ rest) = add_all (add_timer m t) rest

-- `_cascade`: a slot is emptied and its timers are added anew.
pub cascade : TimerManager → Place → TimerManager
cascade m p = add_all (record m { placed = elsewhere p m.placed }) (at_place p m.placed)

-- `INDEX(n)` for n from 0 to 3
abbrev pub index_0 : ℕ → ℕ
index_0 last = (last / 2 ^ 8) % 2 ^ 6

abbrev pub index_1 : ℕ → ℕ
index_1 last = (last / 2 ^ 14) % 2 ^ 6

abbrev pub index_2 : ℕ → ℕ
index_2 last = (last / 2 ^ 20) % 2 ^ 6

abbrev pub index_3 : ℕ → ℕ
index_3 last = (last / 2 ^ 26) % 2 ^ 6

-- the `if` of `timer_update`, whose condition cascades wheel by wheel while the index is 0
pub cascade_due : TimerManager → TimerManager
cascade_due m =
    let last = m.last_tick in
    let m2 = cascade m (tv2 (index_0 last)) in
    let m3 = cascade m2 (tv3 (index_1 last)) in
    let m4 = cascade m3 (tv4 (index_2 last)) in
    let m5 = cascade m4 (tv5 (index_3 last)) in
    if last % 2 ^ 8 == 0
    then (if index_0 last == 0
        then (if index_1 last == 0 then (if index_2 last == 0 then m5 else m4) else m3)
        else m2)
    else m

pub create_timer_manager : ℕ → TimerManager
create_timer_manager tick = record { placed = []; last_tick = tick }

-- The memory unit gives the address of a new timer.
pub timer_add : TimerManager → ℕ → ℕ → ℤ → ℕ → TimerManager
timer_add m addr elapse count user_data = add_timer m (record {
  addr = addr;
  expires = add32 m.last_tick elapse;
  elapse = elapse;
  count = count;
  user_data = user_data;
})

-- the new fields of a timer; data that is null is not set
pub modified : ℕ → TimerInfo → ℕ → ℤ → ℕ → TimerInfo
modified last t elapse count user_data = record t {
  expires = add32 last elapse;
  elapse = elapse;
  count = count;
  user_data = if user_data == 0 then t.user_data else user_data;
}

-- `_detach_timer`
pub detach : ℕ → List (Place × TimerInfo) → List (Place × TimerInfo)
detach addr [] = []
detach addr ((p, t) ∷ rest) =
    let more = detach addr rest in if t.addr == addr then more else (p, t) ∷ more

pub pending : ℕ → List (Place × TimerInfo) → Option TimerInfo
pending addr [] = none
pending addr ((p, t) ∷ rest) = if t.addr == addr then some t else pending addr rest

-- `timer_mod` and `timer_del` of a timer that is pending
pub timer_mod : TimerManager → ℕ → ℕ → ℤ → ℕ → TimerManager
timer_mod m addr elapse count user_data = elim (pending addr m.placed) [
  | none ↦ m
  | some t ↦
      add_timer (record m { placed = detach addr m.placed })
        (modified m.last_tick t elapse count user_data)
]

pub timer_del : TimerManager → ℕ → TimerManager
timer_del m addr = record m { placed = detach addr m.placed }

-- The calls that `func_on_timer` may make of the manager it is called from.
pub data Call : Type 0 where
  add : ℕ → ℕ → ℤ → ℕ → Call
  modify : ℕ → ℕ → ℤ → ℕ → Call
  delete : ℕ → Call

-- `info` is the timer whose callback runs. It is not pending, so that `timer_mod` only sets its
-- fields, and `timer_del` its count.
pub call : TimerManager × TimerInfo → Call → TimerManager × TimerInfo
call (m, info) (add addr elapse count user_data) = (timer_add m addr elapse count user_data, info)
call (m, info) (modify addr elapse count user_data) =
    if info.addr == addr
    then (m, modified m.last_tick info elapse count user_data)
    else (timer_mod m addr elapse count user_data, info)
call (m, info) (delete addr) =
    if info.addr == addr then (m, record info { count = pos 0 }) else (timer_del m addr, info)

pub calls : TimerManager × TimerInfo → List Call → TimerManager × TimerInfo
calls s [] = s
calls s (c ∷ rest) = calls (call s c) rest

abbrev pub is_zero : ℤ → Bool
is_zero (pos n) = n == 0
is_zero (negsuc n) = false

-- `if (info->count > 0) --info->count;`
abbrev pub counted_down : ℤ → ℤ
counted_down (pos n) = pos (n - 1)
counted_down (negsuc n) = negsuc n

-- the head of `work_list` and the lists without it
pub next_work : List (Place × TimerInfo) → Option (TimerInfo × List (Place × TimerInfo))
next_work [] = none
next_work ((p, t) ∷ rest) =
    if same_place p work
    then some (t, rest)
    else elim (next_work rest) [ none ↦ none | some (u, others) ↦ some (u, (p, t) ∷ others) ]

pub start_work : TimerManager → TimerManager
start_work m = record m {
  placed =
      map (λ e. if same_place e.0 (tv1 (m.last_tick % 2 ^ 8)) then (work, e.1) else e) m.placed;
}

-- A run of `timer_update`: `reads` counts the calls of `func_get_tick`, and `log` holds the calls of
-- `func_on_timer`, each the tick and the timer as it was given over, the latest first.
pub record Run : Type 0 where
  pub mgr : TimerManager
  pub time_out : Bool
  pub reads : ℕ
  pub log : List (ℕ × TimerInfo)

-- `get_tick` gives the readings of the clock in order; `on_timer` the calls that the callback makes,
-- which may depend on all that it was called with up to now.
module _ (get_tick : ℕ → ℕ) (on_timer : List (ℕ × TimerInfo) → List Call) where
  -- the clock is read once more, if there is a limit and it was not passed
  pub check_time : ℕ → ℕ → Run → Run
  check_time tick run_time r =
      if run_time == 0
      then r
      else if r.time_out
      then r
      else record r { reads = r.reads + 1; time_out = ltb run_time (sub32 (get_tick r.reads) tick) }

  -- the body of the inner `while` for the timer that was at the head
  pub expire : ℕ → ℕ → Run → TimerInfo → Run
  expire tick run_time r t =
      let info = record t { count = counted_down t.count } in
      let log = (r.mgr.last_tick, info) ∷ r.log in
      let (m, after) = calls (r.mgr, info) (on_timer log) in
      let again = record after { expires = add32 m.last_tick after.elapse } in
      if is_zero t.count
      then r
      else check_time tick run_time
          (record r { log = log; mgr = if is_zero after.count then m else add_timer m again })

  pub run_work : ℕ → ℕ → ℕ → Run → Run
  run_work tick run_time zero r = r
  run_work tick run_time (suc n) r = elim (next_work r.mgr.placed) [
    | none ↦ r
    | some (t, rest) ↦
        run_work tick run_time n
          (expire tick run_time (record r { mgr = record r.mgr { placed = rest } }) t)
  ]

  -- the body of the outer `while`
  pub run_tick : ℕ → ℕ → Run → Run
  run_tick tick run_time r =
      let m = start_work (cascade_due r.mgr) in
      let done = run_work tick run_time (length m.placed) (record r { mgr = m }) in
      record done { mgr = record done.mgr { last_tick = add32 done.mgr.last_tick 1 } }

  pub update_loop : ℕ → ℕ → ℕ → Run → Run
  update_loop tick run_time zero r = r
  update_loop tick run_time (suc n) r =
      let one = run_tick tick run_time r in
      let more = update_loop tick run_time n one in
      if ltb (sub32 tick r.mgr.last_tick) (2 ^ 31) then (if one.time_out then one else more) else r

  -- The loop is given a round for each tick up to the reading, and one for its last test.
  pub timer_update : TimerManager → ℕ → Run
  timer_update m run_time =
      update_loop (get_tick 0) run_time (sub32 (get_tick 0) m.last_tick + 2)
        (record { mgr = m; time_out = false; reads = 1; log = [] })

-- ===== src/Timer/Count.antt =====
-- The work of a tick ends: `work_list` gets shorter with every timer, whatever the callbacks do.
use libsvr.Common.{
  ℕ, zero, suc, ◌≤◌, ◌≡◌, refl, ap, arith, Bool-cases, Option-cases, inl, inr, false, Option, none,
  some, List, [], ◌∷◌, ◌++◌, length, if◌then◌else◌, add32,
}
use libsvr.Common.Int.{ℤ}
use libsvr.Timer.{
  Place, work, TimerInfo, TimerManager, same_place, place, add_timer, timer_add, modified, detach,
  pending, timer_mod, timer_del, Call, add, modify, delete, call, calls, next_work, is_zero,
  counted_down, Run, check_time, expire, run_work,
}

-- the timers in `work_list`, counted
unfoldable pub works : List (Place × TimerInfo) → ℕ
works [] = 0
works ((p, t) ∷ rest) = if same_place p work then suc (works rest) else works rest

pub works-le-length : (xs : List (Place × TimerInfo)) → works xs ≤ length xs
unfolding works
works-le-length [] = omega arith
works-le-length ((p, t) ∷ xs) = ground (arith, works-le-length xs)

place-ne-work : (last x : ℕ) → same_place (place last x) work ≡ false
unfolding place
place-ne-work last x = ground arith

works-add_last :
    (xs : List (Place × TimerInfo)) (p : Place) (t : TimerInfo)
    → same_place p work ≡ false
    → works (xs ++ ((p, t) ∷ [])) ≡ works xs
unfolding works
works-add_last [] p t n = rw n refl
works-add_last ((q, u) ∷ xs) p t n =
    ap (λ k. if same_place q work then suc k else k) (works-add_last xs p t n)

works-add_timer : (m : TimerManager) (t : TimerInfo) → works (add_timer m t).placed ≡ works m.placed
unfolding add_timer
works-add_timer m t =
    works-add_last m.placed (place m.last_tick t.expires) t (place-ne-work m.last_tick t.expires)

works-detach : (addr : ℕ) (xs : List (Place × TimerInfo)) → works (detach addr xs) ≤ works xs
unfolding works detach
works-detach addr [] = omega arith
works-detach addr ((p, t) ∷ xs) = ground (arith, works-detach addr xs)

works-timer_mod :
    (m : TimerManager) (addr elapse : ℕ) (count : ℤ) (user_data : ℕ)
    → works (timer_mod m addr elapse count user_data).placed ≤ works m.placed
unfolding timer_mod
works-timer_mod m addr elapse count user_data = elim (Option-cases (pending addr m.placed)) [
  | inl e ↦ rw (e, timer_mod) (omega arith)
  | inr (t, e) ↦
      rw (e, timer_mod)
        (omega (
          arith,
          works-add_timer (record m { placed = detach addr m.placed })
              (modified m.last_tick t elapse count user_data),
          works-detach addr m.placed,
        ))
]

works-call :
    (s : TimerManager × TimerInfo) (c : Call) → works (call s c).0.placed ≤ works s.0.placed
unfolding call timer_add timer_del
works-call (m, info) (add addr elapse count user_data) = omega (
  arith,
  works-add_timer m (record {
    addr = addr;
    expires = add32 m.last_tick elapse;
    elapse = elapse;
    count = count;
    user_data = user_data;
  }),
)
works-call (m, info) (modify addr elapse count user_data) =
    ground (arith, works-timer_mod m addr elapse count user_data)
works-call (m, info) (delete addr) = ground (arith, works-detach addr m.placed)

works-calls :
    (s : TimerManager × TimerInfo) (cs : List Call) → works (calls s cs).0.placed ≤ works s.0.placed
unfolding calls
works-calls s [] = omega arith
works-calls s (c ∷ cs) = omega (arith, works-call s c, works-calls (call s c) cs)

abbrev Fewer : List (Place × TimerInfo) → Option (TimerInfo × List (Place × TimerInfo)) → Type 0
Fewer xs none = works xs ≡ 0
Fewer xs (some (t, rest)) = works xs ≡ suc (works rest)

pub next_work-Fewer : (xs : List (Place × TimerInfo)) → Fewer xs (next_work xs)
unfolding next_work works
next_work-Fewer [] = refl
next_work-Fewer ((p, t) ∷ xs) = elim (Bool-cases (same_place p work)) [
  | inl e ↦ rw (e, works) (rw e refl)
  | inr e ↦ rw e (after (next_work xs) (next_work-Fewer xs) e)
]
  where
    after :
        (o : Option (TimerInfo × List (Place × TimerInfo)))
        → Fewer xs o
        → same_place p work ≡ false
        → Fewer ((p, t) ∷ xs) (elim o as (λ o. Option (TimerInfo × List (Place × TimerInfo))) [
          | none ↦ none
          | some (u, others) ↦ some (u, (p, t) ∷ others)
        ])
    after none n e = rw e n
    after (some (u, others)) n e = rw e n

module _ (get_tick : ℕ → ℕ) (on_timer : List (ℕ × TimerInfo) → List Call) (tick run_time : ℕ) where
  works-check_time :
      (r : Run)
      → works (check_time get_tick on_timer tick run_time r).mgr.placed ≡ works r.mgr.placed
  unfolding check_time
  works-check_time r = ground arith

  works-expire :
      (r : Run) (t : TimerInfo)
      → works (expire get_tick on_timer tick run_time r t).mgr.placed ≤ works r.mgr.placed
  unfolding expire
  works-expire r t =
      let info : TimerInfo = record t { count = counted_down t.count } in
      let log : List (ℕ × TimerInfo) = (r.mgr.last_tick, info) ∷ r.log in
      let after = calls (r.mgr, info) (on_timer log) in
      let again : TimerInfo = record after.1 { expires = add32 after.0.last_tick after.1.elapse } in
      ground (
        arith,
        works-calls (r.mgr, info) (on_timer log),
        works-add_timer after.0 again,
        works-check_time (record r {
          log = log;
          mgr = if is_zero after.1.count then after.0 else add_timer after.0 again;
        }),
      )

  -- Whatever calls the callbacks make, the rounds that `run_work` is given are enough: none of the
  -- timers to be worked off is left.
  pub run_work_ends :
      (n : ℕ) (r : Run)
      → works r.mgr.placed ≤ n
      → works (run_work get_tick on_timer tick run_time n r).mgr.placed ≡ 0
  unfolding run_work
  run_work_ends zero r h = omega arith
  run_work_ends (suc n) r h =
      go (next_work r.mgr.placed) (next_work-Fewer r.mgr.placed) (λ s k. run_work_ends n s k)
    where
      go :
          (o : Option (TimerInfo × List (Place × TimerInfo)))
          → Fewer r.mgr.placed o
          → ((s : Run)
              → works s.mgr.placed ≤ n
              → works (run_work get_tick on_timer tick run_time n s).mgr.placed ≡ 0)
          → works
              (elim o as (λ o. Run) [
                | none ↦ r
                | some (t, rest) ↦ run_work get_tick on_timer tick run_time n (
                    expire get_tick on_timer tick run_time
                      (record r { mgr = record r.mgr { placed = rest } })
                      t)
              ]).mgr.placed
            ≡ 0
      go none f ends = f
      go (some (t, rest)) f ends =
          ends
            (expire get_tick on_timer tick run_time
              (record r { mgr = record r.mgr { placed = rest } }) t)
            (omega (arith, works-expire (record r { mgr = record r.mgr { placed = rest } }) t))

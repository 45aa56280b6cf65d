-- ===== src/Timer/Waits.antt =====
-- A timer that waits goes on waiting, until it is the next one to be worked off.
use libsvr.Common.{
  ℕ, ◌%◌, ◌^◌, ◌≡◌, ◌≢◌, ◌⊎◌, sym, ap, ◌∙◌, Bool-cases, Option-cases, inl, inr, Option, none, some,
  List, [], ◌∷◌, ◌++◌, map, All, ◌==◌, if◌then◌else◌, if_both, ne→==, add32,
}
use libsvr.Common.Int.{ℤ}
use libsvr.Timer.{
  Place, tv1, tv2, tv3, tv4, tv5, work, TimerInfo, TimerManager, same_place, place, add_timer,
  add_all, at_place, elsewhere, cascade, cascade_due, index_0, index_1, index_2, index_3, timer_add,
  modified, detach, pending, timer_mod, timer_del, Call, add, modify, delete, call, calls,
  next_work, start_work,
}

-- `t` is in one of the lists.
abbrev pub Waits : TimerInfo → List (Place × TimerInfo) → Type 0
Waits t [] = ⊥
Waits t (e ∷ xs) = (e.1 ≡ t) ⊎ Waits t xs

abbrev pub Among : TimerInfo → List TimerInfo → Type 0
Among t [] = ⊥
Among t (u ∷ us) = (u ≡ t) ⊎ Among t us

-- A call that does not name the timer.
abbrev pub Spares : TimerInfo → Call → Type 0
Spares t (add addr elapse count user_data) = addr ≢ t.addr
Spares t (modify addr elapse count user_data) = addr ≢ t.addr
Spares t (delete addr) = addr ≢ t.addr

module _ (t : TimerInfo) where
  Waits-append : (xs ys : List (Place × TimerInfo)) → Waits t xs → Waits t (xs ++ ys)
  Waits-append [] ys w = absurd w
  Waits-append (e ∷ xs) ys (inl h) = inl h
  Waits-append (e ∷ xs) ys (inr w) = inr (Waits-append xs ys w)

  Waits-last :
      (xs : List (Place × TimerInfo)) (e : Place × TimerInfo) → e.1 ≡ t → Waits t (xs ++ (e ∷ []))
  Waits-last [] e h = inl h
  Waits-last (x ∷ xs) e h = inr (Waits-last xs e h)

  pub Waits-add_timer :
      (m : TimerManager) (u : TimerInfo) → Waits t m.placed → Waits t (add_timer m u).placed
  unfolding add_timer
  Waits-add_timer m u w = Waits-append m.placed ((place m.last_tick u.expires, u) ∷ []) w

  add_all-Waits :
      (m : TimerManager) (us : List TimerInfo)
      → Waits t m.placed ⊎ Among t us
      → Waits t (add_all m us).placed
  unfolding add_all add_timer
  add_all-Waits m [] (inl w) = w
  add_all-Waits m [] (inr a) = absurd a
  add_all-Waits m (u ∷ us) (inl w) = add_all-Waits (add_timer m u) us (inl (Waits-add_timer m u w))
  add_all-Waits m (u ∷ us) (inr (inl h)) =
      add_all-Waits (add_timer m u) us
        (inl (Waits-last m.placed (place m.last_tick u.expires, u) h))
  add_all-Waits m (u ∷ us) (inr (inr a)) = add_all-Waits (add_timer m u) us (inr a)

  Waits-parts :
      (p : Place) (xs : List (Place × TimerInfo))
      → Waits t xs
      → Waits t (elsewhere p xs) ⊎ Among t (at_place p xs)
  unfolding elsewhere at_place
  Waits-parts p [] w = absurd w
  Waits-parts p (e ∷ xs) (inl h) = elim (Bool-cases (same_place e.0 p)) [
    | inl s ↦ rw s (inr (inl h))
    | inr s ↦ rw s (inl (inl h))
  ]
  Waits-parts p (e ∷ xs) (inr w) = elim (Bool-cases (same_place e.0 p)) [
    | inl s ↦ rw s (elim (Waits-parts p xs w) [ inl a ↦ inl a | inr b ↦ inr (inr b) ])
    | inr s ↦ rw s (elim (Waits-parts p xs w) [ inl a ↦ inl (inr a) | inr b ↦ inr b ])
  ]

  cascade-Waits : (m : TimerManager) (p : Place) → Waits t m.placed → Waits t (cascade m p).placed
  unfolding cascade
  cascade-Waits m p w =
      add_all-Waits (record m { placed = elsewhere p m.placed }) (at_place p m.placed)
        (Waits-parts p m.placed w)

  pub cascade_due-Waits : (m : TimerManager) → Waits t m.placed → Waits t (cascade_due m).placed
  unfolding cascade_due
  cascade_due-Waits m w =
      let last = m.last_tick in
      let m2 = cascade m (tv2 (index_0 last)) in
      let m3 = cascade m2 (tv3 (index_1 last)) in
      let m4 = cascade m3 (tv4 (index_2 last)) in
      let w2 = cascade-Waits m (tv2 (index_0 last)) w in
      let w3 = cascade-Waits m2 (tv3 (index_1 last)) w2 in
      let w4 = cascade-Waits m3 (tv4 (index_2 last)) w3 in
      let w5 = cascade-Waits m4 (tv5 (index_3 last)) w4 in
      let P : TimerManager → Type 0 = λ n. Waits t n.placed in
      if_both P (last % 2 ^ 8 == 0)
        (if_both P (index_0 last == 0)
          (if_both P (index_1 last == 0) (if_both P (index_2 last == 0) w5 w4) w3) w2)
        w

  pub start_work-Waits : (m : TimerManager) → Waits t m.placed → Waits t (start_work m).placed
  unfolding start_work
  start_work-Waits m w = go m.placed w
    where
      go :
          (xs : List (Place × TimerInfo))
          → Waits t xs
          → Waits t
              (map (λ e. if same_place e.0 (tv1 (m.last_tick % 2 ^ 8)) then (work, e.1) else e) xs)
      go [] w = absurd w
      go (e ∷ xs) (inr w) = inr (go xs w)
      go (e ∷ xs) (inl h) = inl (
          if_both (λ (f : Place × TimerInfo). f.1 ≡ t) (same_place e.0 (tv1 (m.last_tick % 2 ^ 8)))
            h h)

  detach-Waits :
      (addr : ℕ) (xs : List (Place × TimerInfo))
      → addr ≢ t.addr
      → Waits t xs
      → Waits t (detach addr xs)
  unfolding detach
  detach-Waits addr [] n w = absurd w
  detach-Waits addr (e ∷ xs) n (inl h) =
      rw (ne→== e.1.addr addr (λ k. n (sym k ∙ ap (λ u. u.addr) h))) (inl h)
  detach-Waits addr (e ∷ xs) n (inr w) =
      if_both (Waits t) (e.1.addr == addr) (detach-Waits addr xs n w)
        (inr (detach-Waits addr xs n w))

  timer_mod-Waits :
      (m : TimerManager) (addr elapse : ℕ) (count : ℤ) (user_data : ℕ)
      → addr ≢ t.addr
      → Waits t m.placed
      → Waits t (timer_mod m addr elapse count user_data).placed
  unfolding timer_mod
  timer_mod-Waits m addr elapse count user_data n w = elim (Option-cases (pending addr m.placed)) [
    | inl e ↦ rw (e, timer_mod) w
    | inr (u, e) ↦
        rw (e, timer_mod)
          (Waits-add_timer (record m { placed = detach addr m.placed })
            (modified m.last_tick u elapse count user_data) (detach-Waits addr m.placed n w))
  ]

  call-Waits :
      (s : TimerManager × TimerInfo) (c : Call)
      → Spares t c
      → Waits t s.0.placed
      → Waits t (call s c).0.placed
  unfolding call timer_add timer_del
  call-Waits (m, info) (add addr elapse count user_data) n w =
      Waits-add_timer m
        (record {
          addr = addr;
          expires = add32 m.last_tick elapse;
          elapse = elapse;
          count = count;
          user_data = user_data;
        })
        w
  call-Waits (m, info) (modify addr elapse count user_data) n w =
      if_both (λ (s : TimerManager × TimerInfo). Waits t s.0.placed) (info.addr == addr) w
        (timer_mod-Waits m addr elapse count user_data n w)
  call-Waits (m, info) (delete addr) n w =
      if_both (λ (s : TimerManager × TimerInfo). Waits t s.0.placed) (info.addr == addr) w
        (detach-Waits addr m.placed n w)

  pub calls-Waits :
      (s : TimerManager × TimerInfo) (cs : List Call)
      → All (Spares t) cs
      → Waits t s.0.placed
      → Waits t (calls s cs).0.placed
  unfolding calls
  calls-Waits s [] n w = w
  calls-Waits s (c ∷ cs) (n, more) w = calls-Waits (call s c) cs more (call-Waits s c n w)

  -- `t` is the next timer to be worked off, or it waits with the others.
  abbrev pub NextOr :
      List (Place × TimerInfo) → Option (TimerInfo × List (Place × TimerInfo)) → Type 0
  NextOr xs none = Unit
  NextOr xs (some (u, rest)) = (u ≡ t) ⊎ Waits t rest

  pub next_work-NextOr : (xs : List (Place × TimerInfo)) → Waits t xs → NextOr xs (next_work xs)
  unfolding next_work
  next_work-NextOr [] w = absurd w
  next_work-NextOr (e ∷ xs) w = elim (Bool-cases (same_place e.0 work)) [
    | inl s ↦ rw s w
    | inr s ↦ rw s (go (next_work xs) w (next_work-NextOr xs))
  ]
    where
      go :
          (o : Option (TimerInfo × List (Place × TimerInfo)))
          → Waits t (e ∷ xs)
          → (Waits t xs → NextOr xs o)
          → NextOr (e ∷ xs) (elim o as (λ o. Option (TimerInfo × List (Place × TimerInfo))) [
            | none ↦ none
            | some (u, others) ↦ some (u, e ∷ others)
          ])
      go none w k = tt
      go (some (u, others)) (inl h) k = inr (inl h)
      go (some (u, others)) (inr w) k = elim (k w) [ inl h ↦ inl h | inr v ↦ inr (inr v) ]

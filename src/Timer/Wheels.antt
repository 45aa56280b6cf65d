-- ===== src/Timer/Wheels.antt =====
-- Where a timer stands in the wheels, by the ticks that are left to it.
use libsvr.Common.{
  ℕ, ◌+◌, ◌/◌, ◌%◌, ◌^◌, ◌≤◌, ◌<◌, ◌≡◌, ◌≢◌, arith, ==→ne, ==_iff, true, false, add32, sub32,
}
use libsvr.Timer.{
  Place, tv1, tv2, tv3, tv4, tv5, work, place, index_0, index_1, index_2, index_3, same_place,
}

-- A timer with `expires` may stand at a place. In a slot of a higher wheel the tick at which the slot
-- is cascaded is not past; with 1 for the number of the wheel it is still to come.
abbrev pub Fits : ℕ → ℕ → ℕ → ℕ → ℕ → ℕ → Place → Type 0
Fits s2 s3 s4 s5 last expires (tv1 i) = (i ≡ expires % 2 ^ 8) × (sub32 expires last < 2 ^ 8)
Fits s2 s3 s4 s5 last expires (tv2 i) =
    (i ≡ (expires / 2 ^ 8) % 2 ^ 6)
    × (sub32 expires last < 2 ^ 14)
    × (expires % 2 ^ 8 + s2 ≤ sub32 expires last)
Fits s2 s3 s4 s5 last expires (tv3 i) =
    (i ≡ (expires / 2 ^ 14) % 2 ^ 6)
    × (sub32 expires last < 2 ^ 20)
    × (expires % 2 ^ 14 + s3 ≤ sub32 expires last)
Fits s2 s3 s4 s5 last expires (tv4 i) =
    (i ≡ (expires / 2 ^ 20) % 2 ^ 6)
    × (sub32 expires last < 2 ^ 26)
    × (expires % 2 ^ 20 + s4 ≤ sub32 expires last)
Fits s2 s3 s4 s5 last expires (tv5 i) =
    (i ≡ (expires / 2 ^ 26) % 2 ^ 6) × (expires % 2 ^ 26 + s5 ≤ sub32 expires last)
Fits s2 s3 s4 s5 last expires work = ⊥

pub Fits-weak :
    (s2 s3 s4 s5 last expires : ℕ) (p : Place)
    → (s2 ≤ 1) × (s3 ≤ 1) × (s4 ≤ 1) × (s5 ≤ 1)
    → Fits 1 1 1 1 last expires p
    → Fits s2 s3 s4 s5 last expires p
Fits-weak s2 s3 s4 s5 last expires (tv1 i) s f = f
Fits-weak s2 s3 s4 s5 last expires (tv2 i) s f = (f.0, f.1, omega arith)
Fits-weak s2 s3 s4 s5 last expires (tv3 i) s f = (f.0, f.1, omega arith)
Fits-weak s2 s3 s4 s5 last expires (tv4 i) s f = (f.0, f.1, omega arith)
Fits-weak s2 s3 s4 s5 last expires (tv5 i) s f = (f.0, omega arith)
Fits-weak s2 s3 s4 s5 last expires work s f = f

module _ (last expires : ℕ) (l : last < 2 ^ 32) (x : expires < 2 ^ 32) where
  pub place-Fits : Fits 1 1 1 1 last expires (place last expires)
  unfolding place
  place-Fits = ground arith

  -- no cascade is due
  pub Fits-later :
      (p : Place) → last % 2 ^ 8 ≢ 0 → Fits 0 0 0 0 last expires p → Fits 1 1 1 1 last expires p
  Fits-later (tv1 i) n f = f
  Fits-later (tv2 i) n f = omega arith
  Fits-later (tv3 i) n f = omega arith
  Fits-later (tv4 i) n f = omega arith
  Fits-later (tv5 i) n f = omega arith
  Fits-later work n f = f

  -- the slot of `tv2` that is due has been emptied
  pub Fits-tv2 :
      (p : Place)
      → last % 2 ^ 8 ≡ 0
      → same_place p (tv2 (index_0 last)) ≡ false
      → Fits 0 0 0 0 last expires p
      → Fits 1 0 0 0 last expires p
  Fits-tv2 (tv1 i) z n f = f
  Fits-tv2 (tv2 i) z n f = let m = ==→ne i (index_0 last) n in (f.0, f.1, omega arith)
  Fits-tv2 (tv3 i) z n f = f
  Fits-tv2 (tv4 i) z n f = f
  Fits-tv2 (tv5 i) z n f = f
  Fits-tv2 work z n f = f

  -- the slot of `tv3` that is due has been emptied
  pub Fits-tv3 :
      (p : Place)
      → last % 2 ^ 14 ≡ 0
      → same_place p (tv3 (index_1 last)) ≡ false
      → Fits 1 0 0 0 last expires p
      → Fits 1 1 0 0 last expires p
  Fits-tv3 (tv1 i) z n f = f
  Fits-tv3 (tv2 i) z n f = f
  Fits-tv3 (tv3 i) z n f = let m = ==→ne i (index_1 last) n in (f.0, f.1, omega arith)
  Fits-tv3 (tv4 i) z n f = f
  Fits-tv3 (tv5 i) z n f = f
  Fits-tv3 work z n f = f

  -- the slot of `tv4` that is due has been emptied
  pub Fits-tv4 :
      (p : Place)
      → last % 2 ^ 20 ≡ 0
      → same_place p (tv4 (index_2 last)) ≡ false
      → Fits 1 1 0 0 last expires p
      → Fits 1 1 1 0 last expires p
  Fits-tv4 (tv1 i) z n f = f
  Fits-tv4 (tv2 i) z n f = f
  Fits-tv4 (tv3 i) z n f = f
  Fits-tv4 (tv4 i) z n f = let m = ==→ne i (index_2 last) n in (f.0, f.1, omega arith)
  Fits-tv4 (tv5 i) z n f = f
  Fits-tv4 work z n f = f

  -- the slot of `tv5` that is due has been emptied
  pub Fits-tv5 :
      (p : Place)
      → last % 2 ^ 26 ≡ 0
      → same_place p (tv5 (index_3 last)) ≡ false
      → Fits 1 1 1 0 last expires p
      → Fits 1 1 1 1 last expires p
  Fits-tv5 (tv1 i) z n f = f
  Fits-tv5 (tv2 i) z n f = f
  Fits-tv5 (tv3 i) z n f = f
  Fits-tv5 (tv4 i) z n f = f
  Fits-tv5 (tv5 i) z n f = let m = ==→ne i (index_3 last) n in (f.0, omega arith)
  Fits-tv5 work z n f = f

  -- the next index is not 0, so that no slot of a higher wheel is due
  pub Fits-after_tv2 :
      (p : Place) → index_0 last ≢ 0 → Fits 1 0 0 0 last expires p → Fits 1 1 1 1 last expires p
  Fits-after_tv2 (tv1 i) n f = f
  Fits-after_tv2 (tv2 i) n f = f
  Fits-after_tv2 (tv3 i) n f = omega arith
  Fits-after_tv2 (tv4 i) n f = omega arith
  Fits-after_tv2 (tv5 i) n f = omega arith
  Fits-after_tv2 work n f = f

  -- the next index is not 0, so that no slot of a higher wheel is due
  pub Fits-after_tv3 :
      (p : Place) → index_1 last ≢ 0 → Fits 1 1 0 0 last expires p → Fits 1 1 1 1 last expires p
  Fits-after_tv3 (tv1 i) n f = f
  Fits-after_tv3 (tv2 i) n f = f
  Fits-after_tv3 (tv3 i) n f = f
  Fits-after_tv3 (tv4 i) n f = omega arith
  Fits-after_tv3 (tv5 i) n f = omega arith
  Fits-after_tv3 work n f = f

  -- the next index is not 0, so that no slot of a higher wheel is due
  pub Fits-after_tv4 :
      (p : Place) → index_2 last ≢ 0 → Fits 1 1 1 0 last expires p → Fits 1 1 1 1 last expires p
  Fits-after_tv4 (tv1 i) n f = f
  Fits-after_tv4 (tv2 i) n f = f
  Fits-after_tv4 (tv3 i) n f = f
  Fits-after_tv4 (tv4 i) n f = f
  Fits-after_tv4 (tv5 i) n f = omega arith
  Fits-after_tv4 work n f = f

  -- In the slot of `tv1` that is taken, the timers expire now.
  pub Fits-due :
      (p : Place)
      → same_place p (tv1 (last % 2 ^ 8)) ≡ true
      → Fits 1 1 1 1 last expires p
      → expires ≡ last
  Fits-due (tv1 i) e f = let same = (==_iff i (last % 2 ^ 8)).0 e in omega arith
  Fits-due (tv2 i) e f = cc
  Fits-due (tv3 i) e f = cc
  Fits-due (tv4 i) e f = cc
  Fits-due (tv5 i) e f = cc
  Fits-due work e f = cc

  -- A timer that is in none of the lists that are worked off does not expire now.
  pub Fits-not_now :
      (p : Place)
      → same_place p (tv1 (last % 2 ^ 8)) ≡ false
      → Fits 1 1 1 1 last expires p
      → expires ≢ last
  Fits-not_now (tv1 i) n f e = let m = ==→ne i (last % 2 ^ 8) n in omega arith
  Fits-not_now (tv2 i) n f e = omega arith
  Fits-not_now (tv3 i) n f e = omega arith
  Fits-not_now (tv4 i) n f e = omega arith
  Fits-not_now (tv5 i) n f e = omega arith
  Fits-not_now work n f e = absurd f

  -- The other timers stand where they may for the next tick.
  pub Fits-next :
      (p : Place)
      → same_place p (tv1 (last % 2 ^ 8)) ≡ false
      → Fits 1 1 1 1 last expires p
      → Fits 0 0 0 0 (add32 last 1) expires p
  Fits-next (tv1 i) n f = let m = ==→ne i (last % 2 ^ 8) n in omega arith
  Fits-next (tv2 i) n f = omega arith
  Fits-next (tv3 i) n f = omega arith
  Fits-next (tv4 i) n f = omega arith
  Fits-next (tv5 i) n f = omega arith
  Fits-next work n f = f

-- A timer that is to expire later is not put into the slot that is being worked off.
pub place_later :
    (last elapse : ℕ)
    → last < 2 ^ 32
    → 1 ≤ elapse
    → elapse < 2 ^ 32
    → same_place (place last (add32 last elapse)) (tv1 (last % 2 ^ 8)) ≡ false
unfolding place
place_later last elapse l a b = ground arith

-- A timer armed with an elapse of 0 is put into the slot of the tick `last`. If that slot has been
-- taken, as it has while callbacks run, the timer is in none of those that are taken in the next 255
-- ticks, and is called back in the tick after them: 256 ticks late.
pub place_at_once :
    (last d : ℕ)
    → last < 2 ^ 32
    → 1 ≤ d
    → d < 2 ^ 8
    → (same_place (place last (add32 last 0)) (tv1 (add32 last d % 2 ^ 8)) ≡ false)
      × (same_place (place last (add32 last 0)) (tv1 (add32 last (2 ^ 8) % 2 ^ 8)) ≡ true)
unfolding place
place_at_once last d l a b = ground arith

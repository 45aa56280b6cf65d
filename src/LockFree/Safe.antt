-- ===== src/LockFree/Safe.antt =====
-- Every step keeps the invariant, and what follows for the program.
use libsvr.Common.{
  ℕ, ◌+◌, ◌^◌, ◌≤◌, ◌<◌, ◌≡◌, ◌≢◌, ◌⊎◌, inl, inr, refl, sym, ap, subst, ◌∙◌, arith, Bool, true, not,
  ◌&&◌, Option, none, some, ◌==◌, add64, ℕ_discrete, Bool-cases, ==_iff,
}
use mathlib.Core.Option.{some-injective}
use native.Mathlib.Nat.{mod-eq_of_lt}
use libsvr.LockFree.{
  Pc, idle, push_loaded, push_free, push_write, push_publish, pop_loaded, pop_full, pop_read,
  pop_release, Stage, free, writing, full, reading, System, slot, update, Act, call_push, call_pop,
  go, go_spurious, is_spurious, lock_free_queue, step_at, step, Reach, made, moved,
}
use libsvr.LockFree.Inv.{NodeIs, Local, Inv}
use libsvr.LockFree.Moves.{Inv-go, update-same}
use libsvr.LockFree.Push.{slot-lt, taken-Inv}
use libsvr.LockFree.Write.{written-Inv, published-Inv}
use libsvr.LockFree.Pop.{claimed-Inv}
use libsvr.LockFree.Release.{emptied-Inv, released-Inv}

same : {a b : ℕ} (p : Bool) → (a == b) && p ≡ true → a ≡ b
same p e = ground arith

below : {h n : ℕ} (k : ℕ) → k ≤ h → n ≡ k → (k < h) ⊎ ((k ≡ h) × (n ≡ k))
below k l e = ground arith

slot-below : (capacity i : ℕ) → i < capacity → slot capacity i ≡ i
unfolding slot
slot-below capacity i l = mod-eq_of_lt l

-- the node that a thread has to itself
abbrev pub uses : {T : Type 0} → ℕ → Pc T → Option ℕ
uses capacity (push_write d k) = some (slot capacity k)
uses capacity (push_publish d k) = some (slot capacity k)
uses capacity (pop_read h) = some (slot capacity h)
uses capacity (pop_release h v) = some (slot capacity h)
uses capacity p = none

abbrev owner : Stage → Option ℕ
owner (writing j) = some j
owner (reading j) = some j
owner g = none

module _ {T : Type 0} (capacity : ℕ) where
  push_cas :
      (s : System T) (j : ℕ) (d : T) (k : ℕ)
      → Inv capacity s
      → s.tail ≡ k
      → (k < s.tail) ⊎ (s.node_tail (slot capacity k) ≡ k)
      → add64 k 1 + capacity < 2 ^ 64
      → Inv capacity (record s {
        tail = add64 k 1;
        pc = update s.pc j (push_write d k);
        stage = update s.stage (slot capacity k) (writing j);
        sent = update s.sent k (some d);
      })
  push_cas s j d k inv e (inl l) fits = ground arith
  push_cas s j d k inv e (inr t) fits =
      rw (← e) (taken-Inv capacity s inv j d (rw (← e) at t) (rw (← e) at fits))

  pop_cas :
      (s : System T) (j k : ℕ)
      → Inv capacity s
      → s.head ≡ k
      → (k < s.head) ⊎ ((k ≡ s.head) × (s.node_head (slot capacity k) ≡ k))
      → Inv capacity (record s {
        head = add64 k 1;
        pc = update s.pc j (pop_read k);
        stage = update s.stage (slot capacity k) (reading j);
      })
  pop_cas s j k inv e (inl l) = ground arith
  pop_cas s j k inv e (inr (q, t)) = rw (← e) (claimed-Inv capacity s inv j (rw (← e) at t))

  step_at-Inv :
      (s : System T) (j : ℕ) (p : Pc T) (act : Act T)
      → Inv capacity s
      → Local capacity s j p
      → (step_at capacity s j p act).tail + capacity < 2 ^ 64
      → Inv capacity (step_at capacity s j p act)
  unfolding step_at
  step_at-Inv s j idle (call_push d) inv h fits = Inv-go capacity s j (push_loaded d s.tail) inv tt
  step_at-Inv s j idle call_pop inv h fits =
      Inv-go capacity s j (pop_loaded s.head) inv (omega arith)
  step_at-Inv s j idle go inv h fits = inv
  step_at-Inv s j idle go_spurious inv h fits = inv
  step_at-Inv s j (push_loaded d k) act inv h fits =
      elim (Bool-cases (s.node_tail (slot capacity k) == k)) [
        | inl e ↦ rw e (Inv-go capacity s j (push_free d k) inv (inr ((==_iff _ _).0 e)))
        | inr e ↦ rw e (Inv-go capacity s j idle inv tt)
      ]
  step_at-Inv s j (push_free d k) act inv h fits =
      elim (Bool-cases ((s.tail == k) && not (is_spurious act))) [
        | inl e ↦ rw e (push_cas s j d k inv (same _ e) h (rw e at fits))
        | inr e ↦ rw e (Inv-go capacity s j (push_loaded d s.tail) inv tt)
      ]
  step_at-Inv s j (push_write d k) act inv (w, t, l, q) fits =
      written-Inv capacity s inv j d k w t l q
  step_at-Inv s j (push_publish d k) act inv (w, t, l, q, v) fits =
      published-Inv capacity s inv j d k w t l q v
  step_at-Inv s j (pop_loaded k) act inv h fits =
      elim (Bool-cases (s.node_head (slot capacity k) == k)) [
        | inl e ↦ rw e (Inv-go capacity s j (pop_full k) inv (below k h ((==_iff _ _).0 e)))
        | inr e ↦ rw e (Inv-go capacity s j idle inv tt)
      ]
  step_at-Inv s j (pop_full k) act inv h fits =
      elim (Bool-cases ((s.head == k) && not (is_spurious act))) [
        | inl e ↦ rw e (pop_cas s j k inv (same _ e) h)
        | inr e ↦ rw e (Inv-go capacity s j (pop_loaded s.head) inv (omega arith))
      ]
  step_at-Inv s j (pop_read k) act inv (r, t, l, (v, q, u)) fits =
      rw (q, step_at) (emptied-Inv capacity s inv j k r t l v u)
  step_at-Inv s j (pop_release k v) act inv (r, t, l, q) fits =
      released-Inv capacity s inv j k r t l

  lock_free_queue-Inv :
      0 < capacity → capacity < 2 ^ 64 → Inv capacity (lock_free_queue {T = T} capacity)
  unfolding lock_free_queue
  lock_free_queue-Inv positive small = record {
    positive = positive;
    room = omega (arith, small);
    order = omega arith;
    nodes = λ i l. record { place = slot-below capacity i l; state = ((omega arith), inl refl) };
    threads = λ j. tt;
    cover = λ k a b. omega arith;
  }

  uses-owner :
      (s : System T) (j i : ℕ) (p : Pc T)
      → Local capacity s j p
      → uses capacity p ≡ some i
      → owner (s.stage i) ≡ some j
  uses-owner s j i idle h u = ground arith
  uses-owner s j i (push_loaded d k) h u = ground arith
  uses-owner s j i (push_free d k) h u = ground arith
  uses-owner s j i (push_write d k) (w, a, b, c) u =
      subst (λ x. owner (s.stage x) ≡ some j) (some-injective _ _ u) (ap owner w)
  uses-owner s j i (push_publish d k) (w, a, b, c, v) u =
      subst (λ x. owner (s.stage x) ≡ some j) (some-injective _ _ u) (ap owner w)
  uses-owner s j i (pop_loaded k) h u = ground arith
  uses-owner s j i (pop_full k) h u = ground arith
  uses-owner s j i (pop_read k) (w, a, b, c) u =
      subst (λ x. owner (s.stage x) ≡ some j) (some-injective _ _ u) (ap owner w)
  uses-owner s j i (pop_release k v) (w, a, b, c) u =
      subst (λ x. owner (s.stage x) ≡ some j) (some-injective _ _ u) (ap owner w)

  within :
      (s : System T) (t h : ℕ) (held sent : Option T) (g : Stage)
      → NodeIs capacity s.tail s.head t h held sent g
      → t < s.tail
      → s.tail ≤ t + capacity
  within s t h held sent free (a, o) l = ground arith
  within s t h held sent (writing j) (a, b, c, o) l = b
  within s t h held sent full (a, b, c, o, z) l = b
  within s t h held sent (reading j) (a, b, c, o) l = b

  module _ (positive : 0 < capacity) (small : capacity < 2 ^ 64) where
    Reach-Inv : {s : System T} → Reach capacity s → Inv capacity s
    unfolding step_at step
    Reach-Inv made = lock_free_queue-Inv positive small
    Reach-Inv (moved {s} j act r fits) =
        let inv = Reach-Inv r in step_at-Inv s j (s.pc j) act inv (inv.threads j) fits

    -- In every state that the threads reach, in whatever order they run, two different threads never
    -- write or read the value of the same node.
    pub Reach-alone :
        {s : System T} (a b i : ℕ)
        → Reach capacity s
        → a ≢ b
        → uses capacity (s.pc a) ≡ some i
        → uses capacity (s.pc b) ≢ some i
    Reach-alone {s} a b i r n ua ub =
        let inv = Reach-Inv r in
        n (
          some-injective _ _ (
            sym (uses-owner s a i (s.pc a) (inv.threads a) ua)
            ∙ uses-owner s b i (s.pc b) (inv.threads b) ub))

    -- In every state that the threads reach, a thread that took ticket `h` in `pop` finds a value in its
    -- node, and it is the one that was pushed with ticket `h`: values leave in the order in which they
    -- entered.
    pub Reach-sent :
        {s : System T} (j h : ℕ) (act : Act T)
        → Reach capacity s
        → s.pc j ≡ pop_read h
        → (v : T) × (s.sent h ≡ some v) × ((step capacity s j act).pc j ≡ pop_release h v)
    unfolding step step_at
    Reach-sent {s} j h act r at =
        let (a, b, c, (v, q, u)) = subst (Local capacity s j) at ((Reach-Inv r).threads j) in
        (v, u, rw (at, step_at, q) (update-same s.pc j (pop_release h v)))

    -- In every state that the threads reach, the tickets taken by `push` are at most `capacity` more
    -- than those taken by `pop`, and never fewer.
    pub Reach-size :
        {s : System T} → Reach capacity s → (s.head ≤ s.tail) × (s.tail ≤ s.head + capacity)
    Reach-size {s} r =
        let inv = Reach-Inv r in
        let i = slot capacity s.head in
        (
          inv.order,
          elim (ℕ_discrete s.head s.tail) [
            | yes e ↦ omega arith
            | no n ↦
                let t = inv.cover s.head (omega arith) (omega (arith, inv.order)) in
                within s s.head _ _ _ (s.stage i)
                  (rw t at (inv.nodes i (slot-lt capacity s.head positive)).state)
                  (omega (arith, inv.order))
          ],
        )

-- ===== src/LockFree.antt =====
-- `LockFreeLoopQueue<T, true, true>` of include/lock_free_queue.hpp: many threads push and pop. Each
-- atomic access is one step of a thread, and the steps of the threads interleave in any order; the
-- weaker memory orders of the source are not modelled. `capacity` is a power of two, so that `& _capacityMask` is the
-- remainder.
pub mod Inv
pub mod Moves
pub mod Push
pub mod Write
pub mod Pop
pub mod Release
pub mod Safe
pub mod Tests
use libsvr.Common.{
  ℕ, ◌+◌, ◌-◌, ◌%◌, ◌^◌, ◌<◌, Bool, true, false, Option, none, some, ◌==◌, ◌&&◌, not, if◌then◌else◌,
  add64,
}

-- Where a thread stands in `push` or `pop`, with its local variables.
pub data Pc (T : Type 0) : Type 0 where
  idle : Pc T
  push_loaded : T → ℕ → Pc T
  push_free : T → ℕ → Pc T
  push_write : T → ℕ → Pc T
  push_publish : T → ℕ → Pc T
  pop_loaded : ℕ → Pc T
  pop_full : ℕ → Pc T
  pop_read : ℕ → Pc T
  pop_release : ℕ → T → Pc T

-- What a thread does next: a call, or the next step of the one it is in; `compare_exchange_weak` may
-- fail for no reason.
pub data Act (T : Type 0) : Type 0 where
  call_push : T → Act T
  call_pop : Act T
  go : Act T
  go_spurious : Act T

-- The history of a node, of which the program knows nothing: whether it is free, being written by a
-- thread, full, or being read by a thread.
pub data Stage : Type 0 where
  free : Stage
  writing : ℕ → Stage
  full : Stage
  reading : ℕ → Stage

-- The fields of the nodes are functions of their index. `stage` and `sent`, the value of each ticket
-- that was pushed, are history.
pub record System (T : Type 0) : Type 0 where
  pub tail : ℕ
  pub head : ℕ
  pub node_data : ℕ → Option T
  pub node_tail : ℕ → ℕ
  pub node_head : ℕ → ℕ
  pub pc : ℕ → Pc T
  pub stage : ℕ → Stage
  pub sent : ℕ → Option T

abbrev pub update {ℓ} : {A : Type ℓ} → (ℕ → A) → ℕ → A → ℕ → A
update f i a j = if i == j then a else f j

abbrev pub is_spurious : {T : Type 0} → Act T → Bool
is_spurious go_spurious = true
is_spurious a = false

-- the index of the node for a ticket
pub slot : ℕ → ℕ → ℕ
slot capacity k = k % capacity

module _ {T : Type 0} (capacity : ℕ) where
  -- the constructor; -1 is 2 ^ 64 - 1
  pub lock_free_queue : System T
  lock_free_queue = record {
    tail = 0;
    head = 0;
    node_data = λ i. none;
    node_tail = λ i. i;
    node_head = λ i. 2 ^ 64 - 1;
    pc = λ j. idle;
    stage = λ i. free;
    sent = λ k. none;
  }

  -- one step of thread `j`, which stands at `pc`
  pub step_at : System T → ℕ → Pc T → Act T → System T
  step_at s j idle (call_push d) = record s { pc = update s.pc j (push_loaded d s.tail) }
  step_at s j idle call_pop = record s { pc = update s.pc j (pop_loaded s.head) }
  step_at s j idle act = s
  step_at s j (push_loaded d k) act =
      if s.node_tail (slot capacity k) == k
      then record s { pc = update s.pc j (push_free d k) }
      else record s { pc = update s.pc j idle }
  step_at s j (push_free d k) act =
      if (s.tail == k) && not (is_spurious act)
      then record s {
        tail = add64 k 1;
        pc = update s.pc j (push_write d k);
        stage = update s.stage (slot capacity k) (writing j);
        sent = update s.sent k (some d);
      }
      else record s { pc = update s.pc j (push_loaded d s.tail) }
  step_at s j (push_write d k) act = record s {
    node_data = update s.node_data (slot capacity k) (some d);
    pc = update s.pc j (push_publish d k);
  }
  step_at s j (push_publish d k) act = record s {
    node_head = update s.node_head (slot capacity k) k;
    pc = update s.pc j idle;
    stage = update s.stage (slot capacity k) full;
  }
  step_at s j (pop_loaded h) act =
      if s.node_head (slot capacity h) == h
      then record s { pc = update s.pc j (pop_full h) }
      else record s { pc = update s.pc j idle }
  step_at s j (pop_full h) act =
      if (s.head == h) && not (is_spurious act)
      then record s {
        head = add64 h 1;
        pc = update s.pc j (pop_read h);
        stage = update s.stage (slot capacity h) (reading j);
      }
      else record s { pc = update s.pc j (pop_loaded s.head) }
  step_at s j (pop_read h) act = elim (s.node_data (slot capacity h)) [
    | none ↦ s
    | some v ↦ record s {
      node_data = update s.node_data (slot capacity h) none;
      pc = update s.pc j (pop_release h v);
    }
  ]
  step_at s j (pop_release h v) act = record s {
    node_tail = update s.node_tail (slot capacity h) (add64 h capacity);
    pc = update s.pc j idle;
    stage = update s.stage (slot capacity h) free;
  }

  pub step : System T → ℕ → Act T → System T
  unfolding step_at
  step s j act = step_at s j (s.pc j) act

  -- The states that the threads reach while fewer than 2 ^ 64 - capacity pushes were made, so that no
  -- ticket comes twice.
  pub data Reach : System T → Type 0 where
    made : Reach lock_free_queue
    moved :
        {s : System T} (j : ℕ) (act : Act T)
        → Reach s
        → (step s j act).tail + capacity < 2 ^ 64
        → Reach (step s j act)

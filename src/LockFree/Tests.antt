-- ===== src/LockFree/Tests.antt =====
-- A queue of two nodes, on which two threads push and pop.
use libsvr.Common.{ℕ, ◌≡◌, ◌≢◌, some, refl, arith}
use libsvr.LockFree.{
  System, call_push, call_pop, go, pop_release, lock_free_queue, step_at, step, slot, Reach, made,
  moved,
}
use libsvr.LockFree.Safe.{uses, Reach-alone, Reach-sent}

-- Both threads take ticket 0 and thread 1 loses it; then thread 0 pops its own value while thread 1
-- still writes its node.
abbrev start : System ℕ
start = lock_free_queue 2

abbrev both_free : System ℕ
both_free = step 2 (step 2 (step 2 (step 2 start 0 (call_push 7)) 1 (call_push 8)) 0 go) 1 go

abbrev both_write : System ℕ
both_write = step 2 (step 2 (step 2 (step 2 (both_free) 0 go) 1 go) 1 go) 1 go

abbrev one_reads : System ℕ
one_reads = step 2 (step 2 (step 2 (step 2 (step 2 (both_write) 0 go) 0 go) 0 call_pop) 0 go) 0 go

both_free-Reach : Reach 2 both_free
unfolding lock_free_queue step step_at slot
both_free-Reach =
    moved 1 go
      (moved 0 go (moved 1 (call_push 8) (moved 0 (call_push 7) made (omega arith)) (omega arith))
        (omega arith))
      (omega arith)

both_write-Reach : Reach 2 both_write
unfolding lock_free_queue step step_at slot
both_write-Reach =
    moved 1 go
      (moved 1 go (moved 1 go (moved 0 go both_free-Reach (omega arith)) (omega arith))
        (omega arith))
      (omega arith)

one_reads-Reach : Reach 2 one_reads
unfolding lock_free_queue step step_at slot
one_reads-Reach =
    moved 0 go
      (moved 0 go
        (moved 0 call_pop (moved 0 go (moved 0 go both_write-Reach (omega arith)) (omega arith))
          (omega arith))
        (omega arith))
      (omega arith)

Reach-alone_example : uses 2 (both_write.pc 1) ≢ some 0
unfolding step step_at lock_free_queue slot
Reach-alone_example =
    Reach-alone 2 (omega arith) (omega arith) 0 1 0 both_write-Reach (omega arith) refl

Reach-sent_example :
    (v : ℕ) × (one_reads.sent 0 ≡ some v) × ((step 2 one_reads 0 go).pc 0 ≡ pop_release 0 v)
unfolding step step_at lock_free_queue slot
Reach-sent_example = Reach-sent 2 (omega arith) (omega arith) 0 0 go one_reads-Reach refl

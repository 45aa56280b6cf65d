-- ===== src/LockFree/Pop.antt =====
-- Taking the oldest ticket keeps the invariant.
use libsvr.Common.{ℕ, ◌+◌, ◌≡◌, inl, inr, refl, sym, ap, ◌∙◌, arith, Option, add64}
use libsvr.LockFree.{pop_read, Stage, free, writing, full, reading, System, slot, update}
use libsvr.LockFree.Inv.{Holds, NodeIs, Node, Inv}
use libsvr.LockFree.Moves.{Frame, Inv-step, update-same, update-other}
use libsvr.LockFree.Push.{slot-lt}

module _ {T : Type 0} (capacity : ℕ) (s : System T) (inv : Inv capacity s) (j : ℕ) where
  open inv use {positive, room, order, nodes, threads, cover}

  -- a node whose `head` is the head is full
  at_head-full :
      (t h : ℕ) (held sent : Option T) (g : Stage)
      → NodeIs capacity s.tail s.head t h held sent g
      → h ≡ s.head
      → (g ≡ full) × (t ≡ s.head) × Holds held sent
  at_head-full t h held sent free (a, o) e = ground arith
  at_head-full t h held sent (writing a) (l, b, c, o) e = ground arith
  at_head-full t h held sent full (l, b, c, q, z) e = (refl, sym q ∙ e, z)
  at_head-full t h held sent (reading a) (l, b, c, q) e = ground arith

  module _ (last : s.node_head (slot capacity s.head) ≡ s.head) where
    abbrev i0 : ℕ
    i0 = slot capacity s.head

    abbrev claimed : System T
    claimed = record s {
      head = add64 s.head 1;
      pc = update s.pc j (pop_read s.head);
      stage = update s.stage i0 (reading j);
    }

    mine : Node capacity s i0
    mine = nodes i0 (slot-lt capacity s.head positive)

    was_full :
        (s.stage i0 ≡ full)
        × (s.node_tail i0 ≡ s.head)
        × Holds (s.node_data i0) (s.sent (s.node_tail i0))
    was_full = at_head-full _ _ _ _ (s.stage i0) mine.state last

    state : NodeIs capacity s.tail s.head s.head s.head (s.node_data i0) (s.sent s.head) full
    state = rw (was_full.1, last, was_full.0) at mine.state

    claimed_head : claimed.head ≡ s.head + 1
    claimed_head = omega (arith, state.0)

    claimed-Frame : Frame capacity s claimed j i0
    claimed-Frame = record {
      tail_up = inl refl;
      head_up = inr (claimed_head, refl);
      stage_keep = λ i n. update-other s.stage i0 i (reading j) n;
      tail_keep = λ i n. refl;
      head_keep = λ i n. refl;
      data_keep = λ i n. refl;
      sent_keep = λ k n. refl;
      pc_keep = λ a n. update-other s.pc j a (pop_read s.head) n;
      unwritten = λ a n e. ground (arith, was_full.0);
      unread = λ a n e. ground (arith, was_full.0);
      tail_moves = inr refl;
      head_moves = inr refl;
    }

    pub claimed-Inv : Inv capacity claimed
    claimed-Inv =
        Inv-step capacity claimed-Frame inv room (omega (arith, claimed_head, state.0))
          (record {
            place = mine.place;
            state =
                rw (was_full.1, last, update-same s.stage i0 (reading j), claimed_head)
                  (state.0, state.1, omega arith, refl);
          })
          (rw (update-same s.pc j (pop_read s.head))
            (update-same s.stage i0 (reading j), was_full.1, state.0, state.4))
          (λ k e a l. ap s.node_tail (sym e) ∙ cover k (omega (arith, claimed_head)) l)

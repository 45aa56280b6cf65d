-- ===== src/LockFree/Release.antt =====
-- Reading and releasing a node keeps the invariant.
use libsvr.Common.{ℕ, ◌+◌, ◌<◌, ◌≡◌, ◌≢◌, inl, inr, refl, sym, ap, ◌∙◌, arith, none, some, add64}
use libsvr.LockFree.{idle, pop_release, free, writing, reading, System, slot, update}
use libsvr.LockFree.Inv.{NodeIs, Node, Inv}
use libsvr.LockFree.Moves.{Frame, Inv-step, update-same, update-other, slot-add}
use libsvr.LockFree.Push.{slot-lt}

module _ {T : Type 0} (capacity : ℕ) (s : System T) (inv : Inv capacity s) (j : ℕ) where
  open inv use {positive, room, order, nodes, threads, cover}

  -- a thread that reads a node is the only one there
  module _ (h : ℕ) (r : s.stage (slot capacity h) ≡ reading j)
      (t : s.node_tail (slot capacity h) ≡ h) (l : h < s.tail) where
    abbrev i0 : ℕ
    i0 = slot capacity h

    mine : Node capacity s i0
    mine = nodes i0 (slot-lt capacity h positive)

    state : NodeIs capacity s.tail s.head h (s.node_head i0) (s.node_data i0) (s.sent h) (reading j)
    state = rw (t, r) at mine.state

    unwritten : (a : ℕ) → s.stage i0 ≢ writing a
    unwritten a e = ground (arith, r)

    alone : (a : ℕ) → a ≢ j → s.stage i0 ≢ reading a
    alone a n e = ground (arith, r)

    module _ (v : T) (q : s.sent h ≡ some v) where
      abbrev emptied : System T
      emptied = record s {
        node_data = update s.node_data i0 none;
        pc = update s.pc j (pop_release h v);
      }

      emptied-Frame : Frame capacity s emptied j i0
      emptied-Frame = record {
        tail_up = inl refl;
        head_up = inl refl;
        stage_keep = λ i n. refl;
        tail_keep = λ i n. refl;
        head_keep = λ i n. refl;
        data_keep = λ i n. update-other s.node_data i0 i none n;
        sent_keep = λ k n. refl;
        pc_keep = λ a n. update-other s.pc j a (pop_release h v) n;
        unwritten = λ a n. unwritten a;
        unread = alone;
        tail_moves = inr refl;
        head_moves = inr refl;
      }

      pub emptied-Inv : Inv capacity emptied
      emptied-Inv =
          Inv-step capacity emptied-Frame inv room order
            (record { place = mine.place; state = rw (t, r) state })
            (rw (update-same s.pc j (pop_release h v)) (r, t, l, q))
            (λ k e a l. ap s.node_tail (sym e) ∙ cover k a l)

    abbrev released : System T
    released = record s {
      node_tail = update s.node_tail i0 (add64 h capacity);
      pc = update s.pc j idle;
      stage = update s.stage i0 free;
    }

    next_ticket : add64 h capacity ≡ h + capacity
    next_ticket = omega (arith, room)

    released-Frame : Frame capacity s released j i0
    released-Frame = record {
      tail_up = inl refl;
      head_up = inl refl;
      stage_keep = λ i n. update-other s.stage i0 i free n;
      tail_keep = λ i n. update-other s.node_tail i0 i (add64 h capacity) n;
      head_keep = λ i n. refl;
      data_keep = λ i n. refl;
      sent_keep = λ k n. refl;
      pc_keep = λ a n. update-other s.pc j a idle n;
      unwritten = λ a n. unwritten a;
      unread = alone;
      tail_moves = inl (rw t l);
      head_moves = inr refl;
    }

    pub released-Inv : Inv capacity released
    released-Inv =
        Inv-step capacity released-Frame inv room order
          (record {
            place =
                ap (slot capacity) (update-same s.node_tail i0 (add64 h capacity) ∙ next_ticket)
                ∙ slot-add capacity h;
            state =
                rw
                  (
                    update-same s.node_tail i0 (add64 h capacity),
                    update-same s.stage i0 free,
                    next_ticket,
                  )
                  (state.1, inr (omega (arith, state.2, state.3)));
          })
          (rw (update-same s.pc j idle) tt)
          (λ k e a b. ground (arith, state.2, sym t ∙ ap s.node_tail (sym e) ∙ cover k a b))

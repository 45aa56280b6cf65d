-- ===== src/LockFree/Write.antt =====
-- The writes of `push` keep the invariant.
use libsvr.Common.{ℕ, ◌<◌, ◌≡◌, ◌≢◌, inl, inr, refl, sym, ap, ◌∙◌, arith, some}
use libsvr.LockFree.{idle, push_publish, writing, full, reading, System, slot, update}
use libsvr.LockFree.Inv.{NodeIs, Node, Inv}
use libsvr.LockFree.Moves.{Frame, Inv-step, update-same, update-other}
use libsvr.LockFree.Push.{slot-lt}

module _ {T : Type 0} (capacity : ℕ) (s : System T) (inv : Inv capacity s) (j : ℕ) where
  open inv use {positive, room, order, nodes, threads, cover}

  -- a thread that writes a node is the only one there
  module _ (d : T) (k : ℕ) (w : s.stage (slot capacity k) ≡ writing j)
      (t : s.node_tail (slot capacity k) ≡ k) (l : k < s.tail) (q : s.sent k ≡ some d) where
    abbrev i0 : ℕ
    i0 = slot capacity k

    mine : Node capacity s i0
    mine = nodes i0 (slot-lt capacity k positive)

    state : NodeIs capacity s.tail s.head k (s.node_head i0) (s.node_data i0) (s.sent k) (writing j)
    state = rw (t, w) at mine.state

    alone : (a : ℕ) → a ≢ j → s.stage i0 ≢ writing a
    alone a n e = ground (arith, w)

    unread : (a : ℕ) → s.stage i0 ≢ reading a
    unread a e = ground (arith, w)

    abbrev written : System T
    written = record s {
      node_data = update s.node_data i0 (some d);
      pc = update s.pc j (push_publish d k);
    }

    written-Frame : Frame capacity s written j i0
    written-Frame = record {
      tail_up = inl refl;
      head_up = inl refl;
      stage_keep = λ i n. refl;
      tail_keep = λ i n. refl;
      head_keep = λ i n. refl;
      data_keep = λ i n. update-other s.node_data i0 i (some d) n;
      sent_keep = λ k n. refl;
      pc_keep = λ a n. update-other s.pc j a (push_publish d k) n;
      unwritten = alone;
      unread = λ a n. unread a;
      tail_moves = inr refl;
      head_moves = inr refl;
    }

    pub written-Inv : Inv capacity written
    written-Inv =
        Inv-step capacity written-Frame inv room order
          (record { place = mine.place; state = rw (t, w) state })
          (rw (update-same s.pc j (push_publish d k))
            (w, t, l, q, update-same s.node_data i0 (some d)))
          (λ k e a l. ap s.node_tail (sym e) ∙ cover k a l)

    module _ (v : s.node_data i0 ≡ some d) where
      abbrev published : System T
      published = record s {
        node_head = update s.node_head i0 k;
        pc = update s.pc j idle;
        stage = update s.stage i0 full;
      }

      published-Frame : Frame capacity s published j i0
      published-Frame = record {
        tail_up = inl refl;
        head_up = inl refl;
        stage_keep = λ i n. update-other s.stage i0 i full n;
        tail_keep = λ i n. refl;
        head_keep = λ i n. update-other s.node_head i0 i k n;
        data_keep = λ i n. refl;
        sent_keep = λ k n. refl;
        pc_keep = λ a n. update-other s.pc j a idle n;
        unwritten = alone;
        unread = λ a n. unread a;
        tail_moves = inr refl;
        head_moves = inl (ground (arith, state.3));
      }

      pub published-Inv : Inv capacity published
      published-Inv =
          Inv-step capacity published-Frame inv room order
            (record {
              place = mine.place;
              state =
                  rw (t, update-same s.stage i0 full, update-same s.node_head i0 k)
                    (state.0, state.1, state.2, refl, (d, v, q));
            })
            (rw (update-same s.pc j idle) tt) (λ k e a l. ap s.node_tail (sym e) ∙ cover k a l)

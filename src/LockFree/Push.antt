-- ===== src/LockFree/Push.antt =====
-- Taking a ticket keeps the invariant.
use libsvr.Common.{
  ℕ, ◌+◌, ◌^◌, ◌<◌, ◌≡◌, inl, inr, refl, sym, ap, ◌∙◌, arith, some, add64, ℕ_discrete,
}
use native.Mathlib.Nat.{mod-lt}
use libsvr.LockFree.{push_write, Stage, free, writing, full, reading, System, slot, update}
use libsvr.LockFree.Inv.{IsOld, NodeIs, Inv}
use libsvr.LockFree.Moves.{Frame, Inv-step, update-same, update-other}

pub slot-lt : (capacity k : ℕ) → 0 < capacity → slot capacity k < capacity
unfolding slot
slot-lt capacity k = mod-lt k

module _ {T : Type 0} (capacity : ℕ) (s : System T) (inv : Inv capacity s) (j : ℕ) where
  open inv use {positive, room, order, nodes, threads, cover}

  -- a node whose ticket is the tail is free
  at_tail-free :
      (g : Stage)
      → NodeIs capacity s.tail s.head s.tail
          (s.node_head (slot capacity s.tail))
          (s.node_data (slot capacity s.tail))
          (s.sent s.tail)
          g
      → (g ≡ free) × IsOld s.head (s.node_head (slot capacity s.tail))
  at_tail-free free (a, o) = (refl, o)
  at_tail-free (writing a) (l, b, c, h) = ground arith
  at_tail-free full (l, b, c, h, z) = ground arith
  at_tail-free (reading a) (l, b, c, h) = ground arith

  module _ (d : T) (mine : s.node_tail (slot capacity s.tail) ≡ s.tail) where
    abbrev i0 : ℕ
    i0 = slot capacity s.tail

    abbrev taken : System T
    taken = record s {
      tail = add64 s.tail 1;
      pc = update s.pc j (push_write d s.tail);
      stage = update s.stage i0 (writing j);
      sent = update s.sent s.tail (some d);
    }

    was_free : (s.stage i0 ≡ free) × IsOld s.head (s.node_head i0)
    was_free =
        at_tail-free (s.stage i0) (rw mine at (nodes i0 (slot-lt capacity s.tail positive)).state)

    taken_tail : taken.tail ≡ s.tail + 1
    taken_tail = omega arith

    taken-Frame : Frame capacity s taken j i0
    taken-Frame = record {
      tail_up = inr (taken_tail, refl);
      head_up = inl refl;
      stage_keep = λ i n. update-other s.stage i0 i _ n;
      tail_keep = λ i n. refl;
      head_keep = λ i n. refl;
      data_keep = λ i n. refl;
      sent_keep = λ k n.
          update-other s.sent s.tail k _
            (elim n [ inl away ↦ away | inr away ↦ λ e. away (ap (slot capacity) e) ]);
      pc_keep = λ a n. update-other s.pc j a _ n;
      unwritten = λ a n e. ground (arith, was_free.0);
      unread = λ a n e. ground (arith, was_free.0);
      tail_moves = inr refl;
      head_moves = inr refl;
    }

    pub taken-Inv : (add64 s.tail 1) + capacity < 2 ^ 64 → Inv capacity taken
    taken-Inv fits =
        Inv-step capacity taken-Frame inv fits (omega (arith, taken_tail))
          (record {
            place = ap (slot capacity) mine;
            state =
                rw (mine, update-same s.stage i0 (writing j), taken_tail)
                  ((omega arith), omega arith, order, was_free.1);
          })
          (rw (update-same s.pc j (push_write d s.tail)) (
            update-same s.stage i0 (writing j),
            mine,
            omega (arith, taken_tail),
            update-same s.sent s.tail (some d),
          ))
          (λ k e a l. elim (ℕ_discrete k s.tail) [
            | yes q ↦ mine ∙ sym q
            | no q ↦ ap s.node_tail (sym e) ∙ cover k a (omega (arith, taken_tail))
          ])

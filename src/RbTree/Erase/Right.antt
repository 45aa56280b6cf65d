-- ===== src/RbTree/Erase/Right.antt =====
-- The rounds of `_rb_erase_balance` for a node that is `rb_right` of its parent.
use libsvr.Common.{◌+◌, ◌≡◌, refl, sym, arith, false, List, ◌∷◌, subst, Bool-cases, inl, inr}
use mathlib.Core.List.{append_assoc}
use libsvr.AvlTree.{Entry}
use libsvr.RbTree.{Color, red, black, RbNode, node, Parent, right_of, whole, is_red, painted}
use libsvr.RbTree.Level.{black_height, IsLevel, IsWay, inorder, Balanced, inorder-whole, not_red}
use libsvr.RbTree.Insert.{regrow}
use libsvr.RbTree.Erase.{both_black, erase_balance}
use libsvr.RbTree.Erase.Settle.{settle_right-Settled}
use libsvr.RbTree.Erase.Short.{black_whole, Settled-top, grown, turned-IsWay, under_turned}

module _ (n : RbNode) (c : Color) (e : Entry) (up : List Parent) (ln : IsLevel n)
    (cold : is_red n ≡ false) where
  pub black_right :
      (a : RbNode) (f : Entry) (r : RbNode)
      → IsWay (black_height n + 1) (right_of c (node black a f r) e ∷ up)
      → ((m : RbNode)
          → IsLevel (painted black m)
          → IsWay (black_height m + 1) up
          → Balanced (erase_balance m up) (inorder (whole m up)))
      → Balanced
          (erase_balance n (right_of c (node black a f r) e ∷ up))
          (inorder (whole n (right_of c (node black a f r) e ∷ up)))
  unfolding erase_balance whole black_height inorder
  black_right a f r (ls, hs, q, ws) again =
      let hn : black_height a ≡ black_height n = omega arith in
      elim (Bool-cases (both_black a r)) [
        | inl both ↦
            let m : RbNode = node c (node red a f r) e n in
            rw (cold, both)
              (regrow (inorder-whole m (node c (node black a f r) e n) up refl) (
                again m
                  (
                    (ls.0, ls.1, ls.2, λ z. ground (arith, both)),
                    ln,
                    hn,
                    λ z. (not_red _ z, not_red _ z),
                  )
                  (subst (λ k. IsWay k up) (grown c (node red a f r) e n (node black a f r) refl)
                    ws)))
        | inr one ↦
            rw (cold, one)
              (Settled-top c _ (node c (node black a f r) e n) _ up
                (settle_right-Settled c n e ln a f r ls hn one) ws (λ z. (q z).1))
      ]

  pub red_right :
      (o : RbNode) (f : Entry) (a : RbNode) (x : Entry) (b : RbNode)
      → IsWay (black_height n + 1) (right_of c (node red o f (node black a x b)) e ∷ up)
      → Balanced
          (erase_balance n (right_of c (node red o f (node black a x b)) e ∷ up))
          (inorder (whole n (right_of c (node red o f (node black a x b)) e ∷ up)))
  unfolding erase_balance whole black_height inorder
  red_right o f a x b ((lo, lr, ho, qo), hs, q, ws) =
      let s : RbNode = node red o f (node black a x b) in
      let hn : black_height a ≡ black_height n = omega arith in
      let turned = turned-IsWay c s e up (black_height o) ws (λ z. (q z).0) refl refl in
      let back =
        inorder-whole (node black o f (node red (node black a x b) e n)) (node c s e n) up
          (sym (append_assoc (inorder o) (f ∷ inorder (node black a x b)) (e ∷ inorder n))) in
      elim (Bool-cases (both_black a b)) [
        | inl both ↦
            rw (cold, both)
              (regrow back (
                black_whole (node black (node red a x b) e n) (node red (node black a x b) e n)
                  (right_of black o f) up
                  (
                    (lr.0, lr.1, lr.2, λ z. ground (arith, both)),
                    ln,
                    hn,
                    λ z. (not_red _ z, not_red _ z),
                  )
                  refl (lo, ho, under_turned o up, turned) refl))
        | inr one ↦
            rw (cold, one)
              (regrow back (
                Settled-top red _ (node red (node black a x b) e n) _ (right_of black o f ∷ up)
                  (settle_right-Settled red n e ln a x b lr hn one)
                  (lo, ho, under_turned o up, turned) (λ z. refl)))
      ]

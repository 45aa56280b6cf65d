-- ===== src/RbTree/Erase/Left.antt =====
-- The rounds of `_rb_erase_balance` for a node that is `rb_left` of its parent.
use libsvr.Common.{◌+◌, ◌≡◌, refl, sym, ◌∙◌, arith, false, List, ◌∷◌, subst, Bool-cases, inl, inr}
use mathlib.Core.List.{append_assoc}
use libsvr.AvlTree.{Entry}
use libsvr.RbTree.{Color, red, black, RbNode, node, Parent, left_of, whole, is_red, painted}
use libsvr.RbTree.Level.{black_height, IsLevel, IsWay, inorder, Balanced, inorder-whole, not_red}
use libsvr.RbTree.Insert.{regrow}
use libsvr.RbTree.Erase.{both_black, erase_balance}
use libsvr.RbTree.Erase.Settle.{settle_left-Settled}
use libsvr.RbTree.Erase.Short.{black_whole, Settled-top, grown, turned-IsWay, under_turned}

module _ (n : RbNode) (c : Color) (e : Entry) (up : List Parent) (ln : IsLevel n)
    (cold : is_red n ≡ false) where
  pub black_left :
      (a : RbNode) (f : Entry) (r : RbNode)
      → IsWay (black_height n + 1) (left_of c e (node black a f r) ∷ up)
      → ((m : RbNode)
          → IsLevel (painted black m)
          → IsWay (black_height m + 1) up
          → Balanced (erase_balance m up) (inorder (whole m up)))
      → Balanced
          (erase_balance n (left_of c e (node black a f r) ∷ up))
          (inorder (whole n (left_of c e (node black a f r) ∷ up)))
  unfolding erase_balance whole black_height inorder
  black_left a f r (ls, hs, q, ws) again =
      let hn : black_height a ≡ black_height n = omega arith in
      elim (Bool-cases (both_black a r)) [
        | inl both ↦
            let m : RbNode = node c n e (node red a f r) in
            rw (cold, both)
              (regrow (inorder-whole m (node c n e (node black a f r)) up refl) (
                again m
                  (
                    ln,
                    (ls.0, ls.1, ls.2, λ z. ground (arith, both)),
                    sym hn,
                    λ z. (not_red _ z, not_red _ z),
                  )
                  (subst (λ k. IsWay k up) (grown c n e (node red a f r) (node black a f r) hs)
                    ws)))
        | inr one ↦
            rw (cold, one)
              (Settled-top c _ (node c n e (node black a f r)) _ up
                (settle_left-Settled c n e ln a f r ls hn one) ws (λ z. (q z).1))
      ]

  pub red_left :
      (a : RbNode) (x : Entry) (b : RbNode) (f : Entry) (r : RbNode)
      → IsWay (black_height n + 1) (left_of c e (node red (node black a x b) f r) ∷ up)
      → Balanced
          (erase_balance n (left_of c e (node red (node black a x b) f r) ∷ up))
          (inorder (whole n (left_of c e (node red (node black a x b) f r) ∷ up)))
  unfolding erase_balance whole black_height inorder
  red_left a x b f r ((lo, lr, ho, qo), hs, q, ws) =
      let s : RbNode = node red (node black a x b) f r in
      let hn : black_height a ≡ black_height n = omega arith in
      let turned = turned-IsWay c s e up (black_height r) ws (λ z. (q z).0) refl ho in
      let back =
        inorder-whole (node black (node red n e (node black a x b)) f r) (node c n e s) up
          (append_assoc (inorder n) (e ∷ inorder (node black a x b)) (f ∷ inorder r)) in
      elim (Bool-cases (both_black a b)) [
        | inl both ↦
            rw (cold, both)
              (regrow back (
                black_whole (node black n e (node red a x b)) (node red n e (node black a x b))
                  (left_of black f r) up
                  (
                    ln,
                    (lo.0, lo.1, lo.2, λ z. ground (arith, both)),
                    sym hn,
                    λ z. (not_red _ z, not_red _ z),
                  )
                  refl (lr, sym ho ∙ hs, under_turned r up, turned) refl))
        | inr one ↦
            rw (cold, one)
              (regrow back (
                Settled-top red _ (node red n e (node black a x b)) _ (left_of black f r ∷ up)
                  (settle_left-Settled red n e ln a x b lo hn one)
                  (lr, sym ho, under_turned r up, turned) (λ z. refl)))
      ]

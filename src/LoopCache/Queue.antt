-- ===== src/LoopCache/Queue.antt =====
-- A first-in first-out queue of at most `cap` bytes, oldest first, used by blocks of bytes.
use libsvr.Common.{ℕ, ◌+◌, ◌≡◌, Bool, true, false, leb, if◌then◌else◌, List, ◌++◌, length}

abbrev pub Queue : Type 0
Queue = List ℕ

-- A block that does not fit is refused whole.
unfoldable pub push : ℕ → Queue → List ℕ → Bool × Queue
push cap q xs = if leb (length xs + length q) cap then (true, q ++ xs) else (false, q)

-- `pop q n out q'`: the oldest `n` bytes of `q` are `out`, and `q'` is what is left.
pub record Splits (q : Queue) (n : ℕ) (out q' : List ℕ) : Type 0 where
  pub taken : length out ≡ n
  pub whole : q ≡ out ++ q'

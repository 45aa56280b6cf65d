-- ===== src/Common/Memory.antt =====
-- Byte-addressed memory: `memcpy` between two of its regions, and the bytes of a region as a list.
use Prim.Native.Nat.{ℕ, zero, suc, ◌+◌, ◌-◌, ◌≤◌, ◌<◌}
use mathlib.Core.Path.{◌≡◌, refl, sym, ap, ap₂, ◌∙◌, fun_ext}
use mathlib.Core.Bool.{◌&&◌}
use mathlib.Core.Logic.{◌⊎◌}
use mathlib.Core.List.{List, [], ◌∷◌, ◌++◌}
use native.Mathlib.Omega.{arith}
use libsvr.Common.Tests.{ltb, leb, if◌then◌else◌}
use libsvr.Common.Lists.{length}

abbrev pub Memory : Type 0
Memory = ℕ → ℕ

-- `memcpy(dst, src, n)`
unfoldable pub memcpy : Memory → ℕ → ℕ → ℕ → Memory
memcpy m dst src n a = if leb dst a && ltb a (dst + n) then m (src + (a - dst)) else m a

module _ (m : Memory) (dst src n a : ℕ) where
  pub memcpy_outside : (a < dst) ⊎ (dst + n ≤ a) → memcpy m dst src n a ≡ m a
  unfolding memcpy
  memcpy_outside h = ground arith

  pub memcpy_inside : (i : ℕ) → dst + i ≡ a → i < n → memcpy m dst src n a ≡ m (src + i)
  unfolding memcpy
  memcpy_inside i e h = ground arith

-- the first `n` values of a function on indices
unfoldable pub items : (ℕ → ℕ) → ℕ → List ℕ
items f zero = []
items f (suc n) = f 0 ∷ items (λ i. f (suc i)) n

-- the `n` bytes from address `a` on
abbrev pub bytes : Memory → ℕ → ℕ → List ℕ
bytes m a n = items (λ i. m (a + i)) n

pub length-items : (f : ℕ → ℕ) (n : ℕ) → length (items f n) ≡ n
unfolding items
length-items f zero = refl
length-items f (suc n) = ap suc (length-items (λ i. f (suc i)) n)

pub items_ext : (f g : ℕ → ℕ) (n : ℕ) → ((i : ℕ) → i < n → f i ≡ g i) → items f n ≡ items g n
unfolding items
items_ext f g zero h = refl
items_ext f g (suc n) h =
    ap₂ ◌∷◌ (h 0 (omega arith))
      (items_ext (λ i. f (suc i)) (λ i. g (suc i)) n (λ i p. h (suc i) (omega arith)))

items-add : (f : ℕ → ℕ) (n k : ℕ) → items f (n + k) ≡ items f n ++ items (λ i. f (n + i)) k
unfolding items
items-add f zero k = ap₂ items (fun_ext (λ i. ap f (omega arith))) (omega arith)
items-add f (suc n) k =
    ap (items f) same
    ∙ ap (λ xs. f 0 ∷ xs) (items-add (λ i. f (suc i)) n k)
    ∙ ap (λ g. f 0 ∷ (items (λ i. f (suc i)) n ++ items g k)) (fun_ext (λ i. ap f (omega arith)))
  where
    same : suc n + k ≡ suc (n + k)
    same = omega arith

-- A list by indices, cut in two, with each part given by a function of its own.
pub items_split :
    (f g h : ℕ → ℕ) (n k t : ℕ)
    → n + k ≡ t
    → ((i : ℕ) → i < n → f i ≡ g i)
    → ((i : ℕ) → i < k → f (n + i) ≡ h i)
    → items f t ≡ items g n ++ items h k
items_split f g h n k t e p q =
    ap (items f) (sym e)
    ∙ items-add f n k
    ∙ ap₂ ◌++◌ (items_ext f g n p) (items_ext (λ i. f (n + i)) h k q)

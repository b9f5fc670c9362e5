-- ===== src/Prelude/Int.antt =====
-- Go's `int`: an integer with the order and the step that the source uses. 64 bits wide.
use Prim.Native.Nat.{ℕ, zero, suc, ◌+◌, ◌-◌, ◌^◌, ◌≤◌, ◌<◌}
use mathlib.Core.Path.{◌≡◌}
use mathlib.Core.Bool.{Bool, true}
use native.Mathlib.Omega.{arith}
use registration_service.Prelude.Tests.{leb, eqb, if◌then◌else◌}

-- `negsuc n` is -(n + 1).
pub data ℤ : Type 0 where
  pos : ℕ → ℤ
  negsuc : ℕ → ℤ

abbrev pub pos_part : ℤ → ℕ
pos_part (pos n) = n
pos_part (negsuc n) = 0

abbrev pub neg_part : ℤ → ℕ
neg_part (pos n) = 0
neg_part (negsuc n) = suc n

infix 50 ◌≤ℤ◌
abbrev pub ◌≤ℤ◌ : ℤ → ℤ → Type 0
a ≤ℤ b = pos_part a + neg_part b ≤ pos_part b + neg_part a

infix 50 ◌<ℤ◌
abbrev pub ◌<ℤ◌ : ℤ → ℤ → Type 0
a <ℤ b = pos_part a + neg_part b < pos_part b + neg_part a

-- a <= b
abbrev pub lebℤ : ℤ → ℤ → Bool
lebℤ a b = leb (pos_part a + neg_part b) (pos_part b + neg_part a)

-- The largest `int`.
abbrev pub max_int : ℕ
max_int = 2 ^ 63 - 1

-- a++, which wraps.
abbrev pub increment : ℤ → ℤ
increment (pos n) = if eqb n max_int then negsuc max_int else pos (n + 1)
increment (negsuc zero) = pos 0
increment (negsuc (suc n)) = negsuc n

-- The values that an `int` can take.
abbrev pub InRange : ℤ → Type 0
InRange z = (pos_part z ≤ max_int) × (neg_part z ≤ max_int + 1)

pub lebℤ→≤ℤ : (a b : ℤ) → lebℤ a b ≡ true → a ≤ℤ b
lebℤ→≤ℤ a b h = ground arith

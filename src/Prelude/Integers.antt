-- ===== src/Prelude/Integers.antt =====
-- Go's `int`, which no computation of the source takes out of its range: `negsuc n` is -(n + 1).
use Prim.Native.Nat.{◌<◌, ℕ, suc, ◌+◌, ◌-◌, ◌/◌, ◌%◌}
use mathlib.Core.Path.{◌≡◌}
use mathlib.Core.Logic.{◌↔◌}
use mathlib.Core.Bool.{Bool, true, false}
use native.Mathlib.Omega.{arith}
use tallox_go.Prelude.Tests.{ltb, nat_eq, if◌then◌else◌}

pub data ℤ : Type 0 where
  pos negsuc : ℕ → ℤ

abbrev pub above_zero : ℤ → ℕ
above_zero (pos n) = n
above_zero (negsuc n) = 0

abbrev pub below_zero : ℤ → ℕ
below_zero (pos n) = 0
below_zero (negsuc n) = suc n

-- The difference of two natural numbers.
abbrev pub diff : ℕ → ℕ → ℤ
diff m n = if ltb m n then negsuc (n - suc m) else pos (m - n)

infixl 65 ◌+ℤ◌
unfoldable pub ◌+ℤ◌ : ℤ → ℤ → ℤ
x +ℤ y = diff (above_zero x + above_zero y) (below_zero x + below_zero y)

-- `x * 2`, `x % 2 == 0`, and `x / 2`, which rounds towards zero.
unfoldable pub twice : ℤ → ℤ
twice x = diff (above_zero x + above_zero x) (below_zero x + below_zero x)

unfoldable pub is_even : ℤ → Bool
is_even x = nat_eq ((above_zero x + below_zero x) % 2) 0

unfoldable pub quotient_by_two : ℤ → ℤ
quotient_by_two x = diff (above_zero x / 2) (below_zero x / 2)

abbrev pub lt_ℤ : ℤ → ℤ → Bool
lt_ℤ x y = ltb (above_zero x + below_zero y) (above_zero y + below_zero x)

-- What each operation does, on what lies above zero and below it.
pub add_balance :
    (x y : ℤ)
    → above_zero (x +ℤ y) + (below_zero x + below_zero y)
      ≡ below_zero (x +ℤ y) + (above_zero x + above_zero y)
unfolding ◌+ℤ◌
add_balance x y = ground arith

pub twice_balance :
    (x : ℤ)
    → above_zero (twice x) + (below_zero x + below_zero x)
      ≡ below_zero (twice x) + (above_zero x + above_zero x)
unfolding twice
twice_balance x = ground arith

-- One of the two parts is zero, and the parts determine the number.
pub ℤ_ext : (x y : ℤ) → above_zero x + below_zero y ≡ above_zero y + below_zero x → x ≡ y
ℤ_ext x y h = ground (arith, h)

pub quotient_balance :
    (x : ℤ)
    → is_even x ≡ true
    → above_zero (quotient_by_two x) + above_zero (quotient_by_two x) + below_zero x
      ≡ below_zero (quotient_by_two x) + below_zero (quotient_by_two x) + above_zero x
unfolding quotient_by_two is_even
quotient_balance (pos n) h = ground (arith, h)
quotient_balance (negsuc n) h = ground (arith, h)

pub odd-predecessor : (x : ℤ) → is_even x ≡ false → is_even (x +ℤ negsuc 0) ≡ true
unfolding is_even ◌+ℤ◌
odd-predecessor x h = ground (arith, h)

-- The numbers below each other, and their equality, read off the balances.
pub lt_ℤ_iff :
    (x y : ℤ) → (lt_ℤ x y ≡ true) ↔ (above_zero x + below_zero y < above_zero y + below_zero x)
lt_ℤ_iff x y = ground arith

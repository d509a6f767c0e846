-- ===== src/Base/Bits/And.antt =====
-- The law of `bit_and` for the lowest binary digit, and what it says of a mask.
use Prim.Native.Nat.{ℕ, zero, suc, ◌+◌, ◌*◌, ◌/◌, ◌%◌, ◌≤◌, min, bit_and, digits, bit_and-bitwise}
use mathlib.Core.Path.{◌≡◌, refl}
use native.Mathlib.Omega.{arith}

-- The digits that `bit_and` stands for, with rounds left for each digit of the first number.
abbrev rounds : ℕ → ℕ → ℕ → ℕ
rounds n x y = digits (λ y. zero) min n x y

-- Rounds beyond the first number's value add nothing.
rounds-enough : (n m x y : ℕ) → x ≤ n → x ≤ m → rounds n x y ≡ rounds m x y
rounds-enough zero zero zero y h k = refl
rounds-enough zero (suc m) zero y h k = refl
rounds-enough (suc n) zero zero y h k = refl
rounds-enough (suc n) (suc m) zero y h k = refl
rounds-enough zero m (suc x) y h k = absurd (omega arith)
rounds-enough (suc n) zero (suc x) y h k = absurd (omega arith)
rounds-enough (suc n) (suc m) (suc x) y h k =
    let half : suc x / 2 ≤ x = omega arith in
    omega (arith, rounds-enough n m (suc x / 2) (y / 2) (omega (arith, half)) (omega (arith, half)))

pub bit_and_digit : (x y : ℕ) → bit_and x y ≡ bit_and (x / 2) (y / 2) * 2 + min (x % 2) (y % 2)
bit_and_digit zero y = omega (arith, bit_and-bitwise 0 y, bit_and-bitwise 0 (y / 2))
bit_and_digit (suc x) y = omega (
  arith,
  bit_and-bitwise (suc x) y,
  bit_and-bitwise (suc x / 2) (y / 2),
  rounds-enough x (suc x / 2) (suc x / 2) (y / 2) (omega arith) (omega arith),
)

below-zero : (n x : ℕ) → x ≤ n → bit_and x 0 ≡ 0
below-zero zero zero h = refl
below-zero (suc n) zero h = refl
below-zero zero (suc x) h = absurd (omega arith)
below-zero (suc n) (suc x) h =
    omega (arith, bit_and_digit (suc x) 0, below-zero n (suc x / 2) (omega arith))

pub bit_and-none : (x : ℕ) → bit_and x 0 ≡ 0
bit_and-none x = below-zero x x (omega arith)

-- The third binary digit.
pub bit_and_third : (x y : ℕ) → bit_and x y / 4 % 2 ≡ min (x / 4 % 2) (y / 4 % 2)
bit_and_third x y =
    omega (
      arith,
      bit_and_digit x y,
      bit_and_digit (x / 2) (y / 2),
      bit_and_digit (x / 2 / 2) (y / 2 / 2),
    )

pub bit_and-four : (x : ℕ) → bit_and x 4 ≡ x / 4 % 2 * 4
bit_and-four x = omega (
  arith,
  bit_and_digit x 4,
  bit_and_digit (x / 2) 2,
  bit_and_digit (x / 2 / 2) 1,
  bit_and-none (x / 2 / 2 / 2),
)

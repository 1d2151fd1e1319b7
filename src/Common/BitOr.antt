-- ===== src/Common/BitOr.antt =====
-- `|` of numbers that share no bit is their sum. The native operation stands for a recursion on
-- binary digits, with fuel; its law for the lowest digit comes first.
use Prim.Native.Nat.{
  ℕ, zero, suc, ◌+◌, ◌*◌, ◌/◌, ◌%◌, ◌^◌, ◌≤◌, ◌<◌, max, digits, bit_or, bit_or-bitwise,
}
use mathlib.Core.Path.{◌≡◌, refl, ap}
use native.Mathlib.Nat.{pow-suc}
use native.Mathlib.Omega.{arith}

abbrev or_digits : ℕ → ℕ → ℕ → ℕ
or_digits fuel a b = digits (λ y. y) max fuel a b

-- Any fuel from `a` on gives the same.
enough_fuel : (f g a b : ℕ) → a ≤ f → a ≤ g → or_digits f a b ≡ or_digits g a b
enough_fuel (suc f) (suc g) (suc a) b h k =
    omega (arith, enough_fuel f g (suc a / 2) (b / 2) (omega arith) (omega arith))
enough_fuel zero g (suc a) b h k = absurd (omega arith)
enough_fuel f zero (suc a) b h k = absurd (omega arith)
enough_fuel zero zero zero b h k = refl
enough_fuel (suc f) zero zero b h k = refl
enough_fuel zero (suc g) zero b h k = refl
enough_fuel (suc f) (suc g) zero b h k = refl

pub or_zero_left : (b : ℕ) → bit_or 0 b ≡ b
or_zero_left b = bit_or-bitwise 0 b

lowest_digit : (a b : ℕ) → bit_or a b ≡ bit_or (a / 2) (b / 2) * 2 + max (a % 2) (b % 2)
lowest_digit zero b = omega (arith, or_zero_left b, or_zero_left (b / 2))
lowest_digit (suc a) b = omega (
  arith,
  bit_or-bitwise (suc a) b,
  bit_or-bitwise (suc a / 2) (b / 2),
  enough_fuel a (suc a / 2) (suc a / 2) (b / 2) (omega arith) (omega arith),
)

or_zero_below : (n a : ℕ) → a ≤ n → bit_or a 0 ≡ a
or_zero_below n zero h = refl
or_zero_below zero (suc a) h = absurd (omega arith)
or_zero_below (suc n) (suc a) h =
    omega (arith, lowest_digit (suc a) 0, or_zero_below n (suc a / 2) (omega arith))

-- Multiples of 2 ^ k and numbers below it.
pub bit_or-disjoint :
    (k high low : ℕ) → low < 2 ^ k → bit_or (high * 2 ^ k) low ≡ high * 2 ^ k + low
bit_or-disjoint zero high low h = ground (arith, or_zero_below high high)
bit_or-disjoint (suc k) high low h = ground (
  arith,
  lowest_digit (high * 2 ^ suc k) low,
  pow-suc 2 k,
  ap (λ (t : ℕ). high * t) (pow-suc 2 k),
  bit_or-disjoint k high (low / 2),
)

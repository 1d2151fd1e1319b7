-- ===== src/Common/Int.antt =====
-- Signed integers over the native numbers, and the two's complement readings of C++ integers.
use Prim.Native.Nat.{ℕ, ◌-◌, ◌^◌, ◌%◌}
use mathlib.Core.Bool.{Bool, true, false}
use mathlib.Core.Logic.{◌↔◌}
use mathlib.Core.Path.{◌≡◌}
use native.Mathlib.Omega.{arith}
use as_proxyd.Common.Tests.{ltb, ◌==◌, if◌then◌else◌}

-- `negsuc n` is -(n + 1).
pub data ℤ : Type 0 where
  pos : ℕ → ℤ
  negsuc : ℕ → ℤ

-- The `int` that a `char` with these eight bits is promoted to (`char` is signed).
abbrev pub char_to_int : ℕ → ℤ
char_to_int b = if ltb b 128 then pos b else negsuc (255 - b)

-- The value of an `int` with these 32 bits.
abbrev pub signed32 : ℕ → ℤ
signed32 w = if ltb w (2 ^ 31) then pos w else negsuc (2 ^ 32 - 1 - w)

-- `n < z` for a number and an integer.
abbrev pub ltb_ℤ : ℕ → ℤ → Bool
ltb_ℤ n (pos m) = ltb n m
ltb_ℤ n (negsuc m) = false

unfoldable pub eq_ℤ : ℤ → ℤ → Bool
eq_ℤ (pos m) (pos n) = m == n
eq_ℤ (negsuc m) (negsuc n) = m == n
eq_ℤ _ _ = false

pub eq_ℤ_iff : (a b : ℤ) → (eq_ℤ a b ≡ true) ↔ (a ≡ b)
unfolding eq_ℤ
eq_ℤ_iff (pos m) (pos n) = ground arith
eq_ℤ_iff (negsuc m) (negsuc n) = ground arith
eq_ℤ_iff _ _ = ground arith

-- `uint32_t` of an `int`.
abbrev pub to_u32 : ℤ → ℕ
to_u32 (pos n) = n % 2 ^ 32
to_u32 (negsuc n) = 2 ^ 32 - 1 - n % 2 ^ 32

-- A `long` or a `json_int_t` in an `int`.
abbrev pub to_int : ℤ → ℤ
to_int z = signed32 (to_u32 z)

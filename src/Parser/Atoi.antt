-- ===== src/Parser/Atoi.antt =====
-- `atoi` of the C library, as `(int) strtol(s, NULL, 10)` on a 64-bit platform.
use as_proxyd.Common.{
  ℕ, ◌+◌, ◌-◌, ◌*◌, ◌%◌, ◌^◌, [], ◌∷◌, ℤ, leb, if◌then◌else◌, ◌==◌, signed32, Bytes, is_space,
  is_dec,
}

unfoldable pub skip_spaces : Bytes → Bytes
skip_spaces [] = []
skip_spaces (c ∷ cs) = if is_space c then skip_spaces cs else c ∷ cs

-- The value of the leading digits, behind `acc`.
unfoldable pub digits_value : ℕ → Bytes → ℕ
digits_value acc [] = acc
digits_value acc (c ∷ cs) =
    let rest = digits_value (acc * 10 + (c - 48)) cs in if is_dec c then rest else acc

-- `strtol` stops at the ends of `long`; the conversion to `int` keeps 32 bits.
positive : ℕ → ℤ
positive n = signed32 ((if leb n (2 ^ 63 - 1) then n else 2 ^ 63 - 1) % 2 ^ 32)

negative : ℕ → ℤ
negative n = signed32 ((2 ^ 64 - (if leb n (2 ^ 63) then n else 2 ^ 63)) % 2 ^ 32)

unfoldable pub after_spaces : Bytes → ℤ
unfolding positive negative digits_value is_dec
after_spaces [] = positive 0
after_spaces (c ∷ cs) =
    if c == b'-'
    then negative (digits_value 0 cs)
    else if c == b'+'
    then positive (digits_value 0 cs)
    else positive (digits_value 0 (c ∷ cs))

unfoldable pub atoi : Bytes → ℤ
unfolding skip_spaces after_spaces is_space
atoi s = after_spaces (skip_spaces s)

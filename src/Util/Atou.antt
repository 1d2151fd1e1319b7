-- ===== src/Util/Atou.antt =====
-- `fast_atou` (src/util.cpp).
use as_proxyd.Common.{
  ℕ, ◌+◌, ◌-◌, ◌*◌, ◌%◌, ◌^◌, true, [], ◌∷◌, some, ◌≡◌, refl, arith, all, ◌==◌, false, Bytes,
  is_dec,
}
use as_proxyd.Parser.{digits_value}
use as_proxyd.Util.{add_digit, atou_from, fast_atou}

add_digit-digits :
    (n c : ℕ) → is_dec c ≡ true → add_digit (n % 2 ^ 32) c ≡ (n * 10 + (c - 48)) % 2 ^ 32
unfolding add_digit is_dec
add_digit-digits n c h = ground arith

digit-nonzero : (c : ℕ) → is_dec c ≡ true → (c == 0) ≡ false
unfolding is_dec
digit-nonzero c h = ground arith

atou_from-digits :
    (s : Bytes) (n : ℕ) → all is_dec s ≡ true → atou_from (n % 2 ^ 32) s ≡ digits_value n s % 2 ^ 32
unfolding atou_from digits_value
atou_from-digits [] n h = refl
atou_from-digits (c ∷ cs) n h =
    ground (arith, digit-nonzero c, add_digit-digits n c, atou_from-digits cs (n * 10 + (c - 48)))

-- A text of decimal digits is read as its value, of which 32 bits are kept.
pub fast_atou_lem :
    (s : Bytes) → all is_dec s ≡ true → fast_atou (some s) ≡ digits_value 0 s % 2 ^ 32
unfolding fast_atou
fast_atou_lem s h = atou_from-digits s 0 h

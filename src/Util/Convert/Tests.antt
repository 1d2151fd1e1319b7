-- ===== src/Util/Convert/Tests.antt =====
-- Runs of `string2int` and `ConvertBase` (src/util.cpp).
use as_proxyd.Common.{
  ℕ, ◌+◌, ◌*◌, ◌^◌, ◌≡◌, refl, some, codes, pos, negsuc, is_space, is_dec, to_lower,
}
use as_proxyd.Parser.{digits_value}
use as_proxyd.Util.Convert.{string2int, convert_base}

abbrev add : ℕ → ℕ → ℕ → ℕ → ℕ
add t v base n = t + v * base ^ n

reads : string2int (codes " -12ab") ≡ negsuc 11
unfolding string2int is_space is_dec digits_value
reads = refl

too_large : string2int (codes "2147483648") ≡ pos 0
unfolding string2int is_space is_dec digits_value
too_large = refl

binary : convert_base add (codes "1F") 16 2 ≡ some (pos 11111)
unfolding convert_base is_space to_lower is_dec digits_value
binary = refl

-- Letters among the digits of the result are not read.
letters_lost : convert_base add (codes "26") 10 16 ≡ some (pos 1)
unfolding convert_base is_space is_dec digits_value
letters_lost = refl

-- ===== src/Util/Base.antt =====
-- `BaseToDec` (src/util.cpp): numbers in a base, by an alphabet of digits. `pow` is a parameter.
pub mod Digits
use as_proxyd.Common.{
  ℕ, ◌+◌, ◌-◌, ◌*◌, ◌/◌, ◌^◌, ◌||◌, List, [], ◌∷◌, Option, none, some, if◌then◌else◌, ltb, Bytes,
  codes, length, until_nul,
}
use as_proxyd.Util.{get_index}

-- The alphabet, in which the letter O is a small one.
abbrev pub symbols : Bytes
symbols = codes "0123456789ABCDEFGHIJKLMNoPQRSTUVWXYZ"

-- The loop over the digits, with `PlaceValue` and `total`; `none` is an overflow of an `int`.
unfoldable pub dec_from : ℕ → ℕ → ℕ → Bytes → Option ℕ
dec_from base place total [] = some total
dec_from base place total (c ∷ cs) =
    let t = total + get_index symbols c * place in
    let rest = dec_from base (place / base) t cs in if ltb t (2 ^ 31) then rest else none

-- `pow base n` stands for `(int) pow(base, n)`, and is `none` where that is out of the range of an `int`. An
-- empty text has no digit for a place. The text is a C string, up to its NUL.
unfoldable pub base_to_dec_of : (ℕ → ℕ → Option ℕ) → Bytes → ℕ → Option ℕ
unfolding dec_from
base_to_dec_of pow text base =
    if ltb base 2 || ltb 36 base
    then some 0
    else elim (pow base (length text - 1)) [ none ↦ none | some place ↦ dec_from base place 0 text ]

unfoldable pub base_to_dec : (ℕ → ℕ → Option ℕ) → Bytes → ℕ → Option ℕ
unfolding base_to_dec_of
base_to_dec pow number base = base_to_dec_of pow (until_nul number) base

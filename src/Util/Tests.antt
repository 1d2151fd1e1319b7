-- ===== src/Util/Tests.antt =====
-- Runs of the helpers (src/util.cpp), and their theorems at concrete inputs.
use as_proxyd.Common.{
  ℕ, Option, none, if◌then◌else◌, ltb, arith, until_nul, true, [], ◌∷◌, some, ◌≡◌, refl, ◌%◌, ◌^◌,
  Bytes, codes, is_dec,
}
use as_proxyd.Parser.{digits_value}
use as_proxyd.Util.{
  str_split, fast_atou, vector_unique_list, has, remove_chars, get_index, is_hangul,
}
use as_proxyd.Util.Atou.{fast_atou_lem}
use as_proxyd.Util.Base.{base_to_dec}
use as_proxyd.Util.Base.Digits.{value_of, base_to_dec-digits}
use as_proxyd.Util.Dates.{date_text}
use as_proxyd.Util.Split.{IsSplit, str_split-IsSplit}
use as_proxyd.Util.Unique.{distinct, vector_unique_list-distinct}

split_run : str_split (codes "a::b::") (codes "::") ≡ some (codes "a" ∷ codes "b" ∷ [] ∷ [])
unfolding str_split
split_run = refl

-- 2 ^ 32 + 1 wraps around.
atou_run : fast_atou (some (codes "4294967297")) ≡ 1
unfolding fast_atou
atou_run = refl

remove_run : remove_chars (codes "a-b-c") (codes "-c") ≡ codes "ab"
unfolding remove_chars
remove_run = refl

-- A character that is not there has the length for its index.
index_run : get_index (codes "0123") b'x' ≡ 4
unfolding get_index
index_run = refl

-- The empty text counts as Hangul.
hangul_run : is_hangul [] ≡ true
unfolding is_hangul
hangul_run = refl

str_split-IsSplit_example :
    IsSplit (codes "::") refl (codes "a::b::") (str_split (codes "a::b::") (codes "::"))
str_split-IsSplit_example = str_split-IsSplit (codes "::") refl (codes "a::b::")

atou_digits : fast_atou (some (codes "8080")) ≡ digits_value 0 (codes "8080") % 2 ^ 32
unfolding is_dec
atou_digits = fast_atou_lem (codes "8080") refl

unique_run :
    (distinct (vector_unique_list (codes "a" ∷ codes "b" ∷ codes "a" ∷ [])) ≡ true)
    × ((s : Bytes)
        → has s (vector_unique_list (codes "a" ∷ codes "b" ∷ codes "a" ∷ []))
          ≡ has s (codes "a" ∷ codes "b" ∷ codes "a" ∷ []))
unique_run = vector_unique_list-distinct (codes "a" ∷ codes "b" ∷ codes "a" ∷ [])

-- `pow`, of which an `int` holds what is below 2 ^ 31.
abbrev pow : ℕ → ℕ → Option ℕ
pow base n = if ltb (base ^ n) (2 ^ 31) then some (base ^ n) else none

base_36 : base_to_dec pow (codes "7Z") 36 ≡ some 287
unfolding value_of
base_36 = base_to_dec-digits pow 36 7 (35 ∷ []) (omega arith) (omega arith) refl (omega arith) refl

-- The letter O counts as 36, in every base.
letter_o : base_to_dec pow (codes "O") 36 ≡ some 36
unfolding base_to_dec get_index until_nul
letter_o = refl

date_run : date_text 2026 3 7 ≡ codes "20260307"
unfolding date_text
date_run = refl

-- In the year 10000 the date is longer.
late_date_run : date_text 10000 12 31 ≡ codes "100001231"
unfolding date_text
late_date_run = refl

-- ===== src/Util/Convert.antt =====
-- `string2int` and `ConvertBase` (src/util.cpp).
pub mod Digits
mod Tests
use as_proxyd.Common.{
  ℕ, zero, suc, ◌+◌, ◌-◌, ◌*◌, ◌/◌, ◌%◌, ◌^◌, Bool, true, false, ◌||◌, List, [], ◌∷◌, ◌++◌, Option,
  none, some, if◌then◌else◌, ◌==◌, leb, ltb, within, is_dec, is_space, to_lower, Bytes, ℤ, pos,
  negsuc,
}
use as_proxyd.Parser.{digits_value, is_empty}

-- The digits that a text begins with.
unfoldable pub leading_digits : Bytes → Bytes
leading_digits [] = []
leading_digits (c ∷ cs) = let rest = leading_digits cs in if is_dec c then c ∷ rest else []

-- What is read behind the sign: 0 if there is no digit, or if the number does not fit an `int`.
unfoldable pub read_unsigned : Bool → Bytes → ℤ
unfolding leading_digits
read_unsigned negative s =
    let ds = leading_digits s in
    let n = digits_value 0 ds in
    if is_empty ds
    then pos 0
    else if negative
    then (if leb n (2 ^ 31) then elim n [ zero ↦ pos 0 | suc m ↦ negsuc m ] else pos 0)
    else if ltb n (2 ^ 31)
    then pos n
    else pos 0

-- `string2int`: white space is skipped, and one sign is taken.
unfoldable pub string2int : Bytes → ℤ
unfolding read_unsigned
string2int [] = pos 0
string2int (c ∷ cs) = elim (is_space c) [
  | true ↦ string2int cs
  | false ↦
      if c == b'-'
      then read_unsigned true cs
      else if c == b'+'
      then read_unsigned false cs
      else read_unsigned false (c ∷ cs)
]

-- The value of a character, by `isdigit`, `isalpha` and `tolower`.
unfoldable pub char_value : ℕ → Option ℕ
char_value c =
    if is_dec c
    then some (c - b'0')
    else if within b'a' b'z' c || within b'A' b'Z' c
    then some (to_lower c - b'a' + 10)
    else none

-- The digits of `temp`, from the lowest on; `none` is a division by zero, or a loop that has not ended
-- after so many rounds.
unfoldable pub digits_of : ℕ → ℕ → ℕ → Option Bytes
digits_of zero target total = none
digits_of (suc fuel) target total =
    let v = total % target in
    let rest = digits_of fuel target (total / target) in
    if total == 0 then some [] else if target == 0 then none else elim rest [
      | none ↦ none
      | some temp ↦ some ((if ltb v 10 then v + b'0' else (v - 10 + b'a') % 256) ∷ temp)
    ]

-- What the first loop finds.
pub data Sum : Type 0 where
  -- A character that has no value.
  unread : Sum
  total : ℕ → Sum

unfoldable pub reversed : Bytes → Bytes → Bytes
reversed [] answer = answer
reversed (c ∷ temp) answer = reversed temp (c ∷ answer)

-- `add` is `total += value * pow(base, n)`, which is computed in a `double`.
module _ (add : ℕ → ℕ → ℕ → ℕ → ℕ) where
  -- The first loop, on the characters from the last one on; the second argument is the number of those
  -- that are behind.
  unfoldable pub sum_from : ℕ → ℕ → ℕ → Bytes → Sum
  unfolding char_value
  sum_from base n t [] = total t
  sum_from base n t (c ∷ cs) = elim (char_value c) [
    | none ↦ unread
    | some v ↦ sum_from base (suc n) (add t v base n) cs
  ]

  abbrev answer_of : ℕ → Sum → Option ℤ
  answer_of target unread = some (pos 0)
  answer_of target (total t) = elim (digits_of (suc t) target t) [
    | none ↦ none
    | some temp ↦ some (string2int (reversed temp []))
  ]

  -- `ConvertBase`, for bases that are not negative.
  unfoldable pub convert_base : Bytes → ℕ → ℕ → Option ℤ
  unfolding sum_from digits_of string2int reversed
  convert_base number base target = answer_of target (sum_from base 0 0 (reversed number []))

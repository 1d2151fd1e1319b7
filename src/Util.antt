-- ===== src/Util.antt =====
-- src/util.cpp: the helpers on strings and numbers.
pub mod Split
pub mod Unique
pub mod Atou
pub mod Base
pub mod Convert
pub mod Log
pub mod Dates
pub mod Files
mod Tests
use as_proxyd.Common.{
  ℕ, zero, suc, ◌+◌, ◌-◌, ◌*◌, ◌%◌, ◌^◌, Bool, true, false, ◌&&◌, ◌||◌, List, [], ◌∷◌, ◌++◌, Option,
  none, some, if◌then◌else◌, ◌==◌, ltb, Bytes, bytes_eq, length,
}

-- `std::find` of a character, or of a string, in a sequence.
unfoldable pub has_char : ℕ → Bytes → Bool
has_char c [] = false
has_char c (x ∷ xs) = x == c || has_char c xs

unfoldable pub has : Bytes → List Bytes → Bool
has s [] = false
has s (t ∷ ts) = bytes_eq t s || has s ts

-- `isHangul`: every byte has its top bit set.
unfoldable pub is_hangul : Bytes → Bool
is_hangul [] = true
is_hangul (c ∷ cs) = (if ltb c 128 then false else true) && is_hangul cs

-- `RemoveChars`.
unfoldable pub remove_chars : Bytes → Bytes → Bytes
unfolding has_char
remove_chars [] chars = []
remove_chars (c ∷ source) chars =
    let result = remove_chars source chars in if has_char c chars then result else c ∷ result

-- What follows the delimiter, if the text begins with it.
unfoldable pub behind : Bytes → Bytes → Option Bytes
behind [] s = some s
behind (d ∷ ds) [] = none
behind (d ∷ ds) (c ∷ s) = if d == c then behind ds s else none

-- `str.find(delimiter, lastPos)`: what stands in front of the first delimiter, and behind it.
unfoldable pub find_delimiter : Bytes → Bytes → Option (Bytes × Bytes)
unfolding behind
find_delimiter d [] = elim (behind d []) [ none ↦ none | some rest ↦ some ([], rest) ]
find_delimiter d (c ∷ s) = elim (behind d (c ∷ s)) [
  | none ↦ elim (find_delimiter d s) [ none ↦ none | some (token, rest) ↦ some (c ∷ token, rest) ]
  | some rest ↦ some ([], rest)
]

abbrev add_token : Bytes → Option (List Bytes) → Option (List Bytes)
add_token token none = none
add_token token (some tokens) = some (token ∷ tokens)

-- The loop of `str_split` from `lastPos` on; `none` is a loop that has not ended after so many rounds.
unfoldable pub split_from : ℕ → Bytes → Bytes → Option (List Bytes)
unfolding find_delimiter
split_from zero d s = none
split_from (suc fuel) d s = elim (find_delimiter d s) [
  | none ↦ some (s ∷ [])
  | some (token, rest) ↦ add_token token (split_from fuel d rest)
]

-- `str_split`. With an empty delimiter the code does not end.
unfoldable pub str_split : Bytes → Bytes → Option (List Bytes)
unfolding split_from
str_split s d = split_from (suc (length s)) d s

-- `(val << 1) + (val << 3) + *str - 48` in an `unsigned int`; a `char` is signed.
unfoldable pub add_digit : ℕ → ℕ → ℕ
add_digit val c =
    (val * 10 + (if ltb c 128 then c else c + (2 ^ 32 - 256)) + (2 ^ 32 - 48)) % 2 ^ 32

-- The loop of `fast_atou`, up to the NUL.
unfoldable pub atou_from : ℕ → Bytes → ℕ
unfolding add_digit
atou_from val [] = val
atou_from val (c ∷ cs) = if c == 0 then val else atou_from (add_digit val c) cs

-- `fast_atou` of a text or of NULL.
unfoldable pub fast_atou : Option Bytes → ℕ
unfolding atou_from
fast_atou none = 0
fast_atou (some s) = atou_from 0 s

-- `GetIndex`: the length of the text if the character is not in it.
unfoldable pub get_index : Bytes → ℕ → ℕ
get_index [] search = 0
get_index (c ∷ cs) search =
    if c == 0 then 0 else if c == search then 0 else suc (get_index cs search)

-- The loop of `vector_unique_list`.
unfoldable pub unique_from : List Bytes → List Bytes → List Bytes
unfolding has
unique_from result [] = result
unique_from result (s ∷ input) =
    unique_from (if has s result then result else result ++ s ∷ []) input

unfoldable pub vector_unique_list : List Bytes → List Bytes
unfolding unique_from
vector_unique_list input = unique_from [] input

-- ===== src/AsObject/Store.antt =====
-- The loop of `PUT` (include/as_object.hpp): the members of a JSON object as bins.
pub mod Returned
use as_proxyd.Aerospike.{AsValue, boolean, integer, string, bytes, nil}
use as_proxyd.Common.{
  ℕ, zero, suc, Bool, true, false, List, [], ◌∷◌, ◌++◌, Option, none, some, ◌≡◌, Bytes, ℤ, pos,
  until_nul, take, length, ltb, c_string, if◌then◌else◌, all, not, ◌==◌,
}
use as_proxyd.Jansson.{
  Jansson, JsonType, object, array, string as json_str, integer as json_int, real, true_value,
  false_value, null, plain,
}

-- `doubleToLPSTR`, of the text of the number: the 20 bytes from its start. To read behind the text and
-- its NUL is undefined.
unfoldable pub double_to_lpstr : Bytes → Option Bytes
double_to_lpstr s = if ltb 18 (length s) then some (take 20 (s ++ 0 ∷ [])) else none

-- What `as_record_set_str` makes of an array of bytes, in which it looks for a NUL.
abbrev pub set_str : Option Bytes → Option AsValue
set_str none = none
set_str (some cs) = elim (c_string cs) [ none ↦ none | some t ↦ some (string (some t)) ]

-- Which names `as_record_set_int64` and its kin take, and the text that a stream makes of a number.
module _ (J : Jansson) (is_bin_name : Bytes → Bool) (streamed : J.Real → Bytes) where
  open J use {Json, json_typeof, json_integer_value, json_string_value, json_real_value, json_dumps}

  abbrev wrapped : Option Bytes → Option AsValue
  wrapped none = none
  wrapped (some t) = some (bytes (until_nul t ++ 0 ∷ []))

  -- The `switch`, on the type; `none` is undefined: `strlen` of NULL, or a read behind the text of a number.
  unfoldable pub bin_of : JsonType → Json → Option AsValue
  unfolding double_to_lpstr
  bin_of json_int v = some (integer (json_integer_value v))
  bin_of json_str v = some (string (some (until_nul (json_string_value v))))
  bin_of real v = set_str (double_to_lpstr (streamed (json_real_value v)))
  bin_of null v = some nil
  bin_of true_value v = some (integer (pos 1))
  bin_of false_value v = some (integer (pos 0))
  bin_of object v = wrapped (json_dumps plain v)
  bin_of array v = wrapped (json_dumps plain v)

  -- A bin whose name is not taken is dropped: the code does not look at what `as_record_set_int64` and
  -- its kin return.
  abbrev add :
      Bytes → Option AsValue → Option (List (Bytes × AsValue)) → Option (List (Bytes × AsValue))
  add k none rest = none
  add k (some v) none = none
  add k (some v) (some bs) = some (if is_bin_name k then (k, v) ∷ bs else bs)

  -- The loop.
  unfoldable pub put_bins : List (Bytes × Json) → Option (List (Bytes × AsValue))
  unfolding bin_of
  put_bins [] = some []
  put_bins ((k, v) ∷ ms) = add k (bin_of (json_typeof v) v) (put_bins ms)

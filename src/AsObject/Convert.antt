-- ===== src/AsObject/Convert.antt =====
-- `data_convert_to_json_v1` (include/as_object.hpp): the bins of a record as the members of a JSON
-- object. The second parameter is `Gzip::gzdecode`.
pub mod Members
pub mod Strings
use as_proxyd.Aerospike.{AsValue, boolean, integer, string, bytes, list, map, nil, other}
use as_proxyd.Base64.{base64_decode}
use as_proxyd.Common.{
  ℕ, length, ◌++◌, Bool, true, false, List, [], ◌∷◌, Option, none, some, ◌≡◌, if◌then◌else◌, Bytes,
  codes, ℤ, until_nul, c_string,
}
use as_proxyd.Jansson.{Jansson}
use as_proxyd.Parser.{is_empty}

-- `as_string_len`.
abbrev pub as_string_len : Option Bytes → ℕ
as_string_len none = 0
as_string_len (some s) = length s

-- `as_string_to_byte`: a copy, with a NUL behind it.
abbrev pub as_string_to_byte : Option Bytes → Bytes
as_string_to_byte none = 0 ∷ []
as_string_to_byte (some s) = s ++ 0 ∷ []

module _ (J : Jansson) (gunzip : Bytes → Option Bytes) where
  open J use {Json, json_object_set, json_integer, json_string, json_boolean, json_loads}

  -- What `sResult` is: the inflated text, up to its first NUL, or the decoded text itself.
  abbrev pub inflated : Bytes → Option Bytes → Bytes
  inflated decoded none = decoded
  inflated decoded (some text) = until_nul text

  -- The value for a string of the C string `src`.
  unfoldable pub string_value : Bytes → Option Json
  string_value src =
      let decoded = base64_decode src in
      if is_empty decoded
      then json_string src
      else json_loads (until_nul (inflated decoded (gunzip decoded)))

  -- What a bin's value is turned into.
  pub data Shown : Type 0 where
    -- `continue`: nothing is stored.
    skipped : Shown
    -- `json_object_set_new_nocheck` is called with this.
    stored : Option Json → Shown
    -- The code reads behind a buffer.
    undefined : Shown

  abbrev text_shown : Bytes → Shown
  text_shown t = stored (json_loads t)

  abbrev pub bytes_shown : Option Bytes → Shown
  bytes_shown none = undefined
  bytes_shown (some t) = stored (json_loads t)

  unfoldable pub shown : AsValue → Shown
  unfolding string_value
  shown (boolean b) = stored (some (json_boolean b))
  shown (integer n) = stored (some (json_integer n))
  shown (string none) = skipped
  shown (string (some [])) = skipped
  shown (string (some (c ∷ s))) = stored (string_value (until_nul (c ∷ s)))
  shown (bytes []) = skipped
  shown (bytes (c ∷ s)) = bytes_shown (c_string (c ∷ s))
  shown (list t) = text_shown (until_nul t)
  shown (map t) = text_shown (until_nul t)
  shown nil = stored (json_string [])
  shown other = stored (json_string [])

  abbrev pub add_shown : Bytes → Shown → Json → Option Json
  add_shown k skipped o = some o
  add_shown k (stored v) o = some (json_object_set o k v)
  add_shown k undefined o = none

  -- One round of the loop over the bins. A bin with an empty name is passed over.
  unfoldable pub add_bin : Bytes × AsValue → Json → Option Json
  unfolding shown
  add_bin (name, value) o = if is_empty name then some o else add_shown name (shown value) o

  unfoldable pub data_convert_to_json_v1 : List (Bytes × AsValue) → Json → Option Json
  unfolding add_bin
  data_convert_to_json_v1 [] o = some o
  data_convert_to_json_v1 (b ∷ bs) o = elim (add_bin b o) [
    | none ↦ none
    | some o' ↦ data_convert_to_json_v1 bs o'
  ]

-- ===== src/JsonUtil.antt =====
-- The accessors of include/jsonutil.hpp, over Jansson. A `json_t *` that may be NULL is an `Option`.
pub mod Numbers
mod Tests
use as_proxyd.Common.{
  ℕ, List, [], ◌∷◌, Option, none, some, Bytes, ℤ, pos, until_nul, signed32, to_int,
}
use as_proxyd.Jansson.{
  Jansson, JsonType, object, array, string, integer, real, true_value, false_value, null,
}
use as_proxyd.Ownership.{Name, Use, releases}
use as_proxyd.Util.{fast_atou}

-- What the accessors do with numbers of type `double`: `strtod`, the conversion of a `json_int_t`, the
-- conversion to `float`, and `<<` into a stream.
pub record Doubles (Real : Type 0) : Type 0 where
  pub strtod : Bytes → Real
  pub of_integer : ℤ → Real
  pub to_float : Real → Real
  pub streamed : Real → Bytes

-- `fast_atou` of the text, as an `int`.
abbrev pub atou_int : Bytes → ℤ
atou_int s = signed32 (fast_atou (some s))

module _ (J : Jansson) where
  open J use {
    Json, Real, json_typeof, json_object_get, json_integer_value, json_string_value,
    json_real_value,
  }

  -- `json_object_get`, also of NULL.
  unfoldable pub member : Option Json → Bytes → Option Json
  member none key = none
  member (some root) key = json_object_get root (until_nul key)

  -- `GET_JSON_OBJECT_NO_COPY`, and `GET_JSON_OBJECT`: values are not shared here, so that a copy is the
  -- value.
  unfoldable pub get_json_object : Option Json → Bytes → Option Json
  unfolding member
  get_json_object root key = member root key

  -- The branches on the type, for an `int`.
  unfoldable pub int_for : JsonType → Json → ℤ → ℤ
  int_for string v def = atou_int (json_string_value v)
  int_for integer v def = to_int (json_integer_value v)
  int_for _ v def = def

  unfoldable pub int_or : Option Json → ℤ → ℤ
  unfolding int_for
  int_or none def = def
  int_or (some v) def = int_for (json_typeof v) v def

  unfoldable pub get_json_int_value : Option Json → Bytes → ℤ
  unfolding member int_or
  get_json_int_value root key = int_or (member root key) (pos 0)

  unfoldable pub get_json_int_value_default : Option Json → Bytes → ℤ → ℤ
  unfolding member int_or
  get_json_int_value_default root key def = int_or (member root key) def

  unfoldable pub get_json_obj_int_value : Option Json → ℤ
  unfolding int_or
  get_json_obj_int_value v = int_or v (pos 0)

  unfoldable pub boolean_for : JsonType → Json → ℤ → ℤ
  boolean_for true_value v def = pos 1
  boolean_for false_value v def = pos 0
  boolean_for integer v def = to_int (json_integer_value v)
  boolean_for _ v def = def

  unfoldable pub get_json_boolean_value : Option Json → Bytes → ℤ → ℤ
  unfolding member boolean_for
  get_json_boolean_value root key def = elim (member root key) [
    | none ↦ def
    | some v ↦ boolean_for (json_typeof v) v def
  ]

  -- `JSON_FREE`.
  abbrev pub json_free : Option Json → List Use
  json_free none = []
  json_free (some v) = releases Name.root ∷ []

  module _ (D : Doubles Real) where
    -- `fast_atoud` and `intToString` of src/util.cpp.
    unfoldable pub fast_atoud : Option Bytes → Real
    fast_atoud none = D.of_integer (pos 0)
    fast_atoud (some s) = D.strtod (until_nul s)

    unfoldable pub int_to_string : Real → Bytes
    int_to_string x = D.streamed x

    unfoldable pub real_for : JsonType → Json → Real → Real
    unfolding fast_atoud
    real_for string v def = fast_atoud (some (json_string_value v))
    real_for integer v def = D.of_integer (json_integer_value v)
    real_for real v def = json_real_value v
    real_for _ v def = def

    -- The default is a `float`.
    unfoldable pub get_json_real_value : Option Json → Bytes → Real → Real
    unfolding member real_for
    get_json_real_value root key def = elim (member root key) [
      | none ↦ D.to_float def
      | some v ↦ real_for (json_typeof v) v (D.to_float def)
    ]

    -- The result is a `float`.
    unfoldable pub get_json_obj_real_value : Option Json → Real
    unfolding real_for
    get_json_obj_real_value none = D.to_float (D.of_integer (pos 0))
    get_json_obj_real_value (some v) =
        D.to_float (real_for (json_typeof v) v (D.of_integer (pos 0)))

    -- `none` is a type that has no text.
    unfoldable pub text_for : JsonType → Json → Option Bytes
    unfolding int_to_string
    text_for string v = some (until_nul (json_string_value v))
    text_for integer v = some (int_to_string (D.of_integer (json_integer_value v)))
    text_for _ v = none

    abbrev text_of : Option Json → Option Bytes
    text_of none = none
    text_of (some v) = text_for (json_typeof v) v

    abbrev or_default : Option Bytes → Bytes → Bytes
    or_default none def = def
    or_default (some s) def = s

    unfoldable pub get_json_string_value : Option Json → Bytes → Bytes
    unfolding member text_for
    get_json_string_value root key = or_default (text_of (member root key)) []

    unfoldable pub get_json_string_value_def : Option Json → Bytes → Bytes → Bytes
    unfolding member text_for
    get_json_string_value_def root key def = or_default (text_of (member root key)) def

    -- Without a text a `std::string` is made of a null pointer, which is undefined: `none`.
    unfoldable pub get_json_obj_string_value : Option Json → Option Bytes
    unfolding text_for
    get_json_obj_string_value v = text_of v

-- ===== src/Jansson.antt =====
-- What the code uses of the Jansson library, which is not in the repository: operations, with what
-- their documentation says of them. A `json_t *` that may be NULL is an `Option`.
pub mod Model
use as_proxyd.Common.{
  ℕ, suc, ◌==◌, ◌||◌, [], ◌∷◌, false, Bool, true, List, Option, none, some, ◌≡◌, if◌then◌else◌,
  Bytes, bytes_eq, ℤ, all, ltb,
}

-- `json_type`.
pub data JsonType : Type 0 where
  object array string integer real true_value false_value null : JsonType

-- The flags that the code gives to `json_dumps`: none, or `JSON_COMPACT | JSON_ENCODE_ANY |
-- JSON_REAL_PRECISION(8)`.
pub data Flags : Type 0 where
  plain compact : Flags

-- The text begins with white space of JSON, or as an array or object does.
abbrev pub opens : Bytes → Bool
opens [] = false
opens (c ∷ cs) = c == b'[' || c == b'{' || c == b' ' || c == b'\t' || c == b'\n' || c == b'\r'

pub record Jansson : Type 1 where
  pub Json : Type 0
  -- `double`.
  pub Real : Type 0
  pub json_typeof : Json → JsonType
  pub json_object : Json
  -- `json_object_set_new_nocheck`, the object after the call.
  pub json_object_set : Json → Bytes → Option Json → Json
  pub json_object_get : Json → Bytes → Option Json
  pub json_object_size : Json → ℕ
  -- The members in the order of `json_object_foreach`.
  pub members : Json → List (Bytes × Json)
  pub json_integer : ℤ → Json
  pub json_integer_value : Json → ℤ
  -- NULL if the text is not UTF-8.
  pub json_string : Bytes → Option Json
  pub json_string_value : Json → Bytes
  -- NULL for infinities and NaN.
  pub json_real : Real → Option Json
  pub json_real_value : Json → Real
  pub json_boolean : Bool → Json
  -- NULL for a value that has no text, such as one with a key that is not UTF-8.
  pub json_dumps : Flags → Json → Option Bytes
  pub json_loads : Bytes → Option Json
  pub is_utf8 : Bytes → Bool
  -- Every key and every string in the value is UTF-8.
  pub IsPrintable : Json → Type 0
  pub typeof-json_object : json_typeof json_object ≡ object
  pub typeof-set :
      (o : Json) (k : Bytes) (v : Option Json) → json_typeof (json_object_set o k v) ≡ json_typeof o
  pub get-json_object : (k : Bytes) → json_object_get json_object k ≡ none
  -- A member is stored under its key; the others stay. NULL is not stored.
  pub get-set :
      (o v : Json) (k j : Bytes)
      → json_typeof o ≡ object
      → json_object_get (json_object_set o k (some v)) j
        ≡ (if bytes_eq k j then some v else json_object_get o j)
  pub set_null : (o : Json) (k : Bytes) → json_object_set o k none ≡ o
  pub size-json_object : json_object_size json_object ≡ 0
  pub size-set :
      (o v : Json) (k : Bytes)
      → json_typeof o ≡ object
      → json_object_size (json_object_set o k (some v)) ≡ elim (json_object_get o k) [
        | none ↦ suc (json_object_size o)
        | some u ↦ json_object_size o
      ]
  -- Without `JSON_DECODE_ANY`, an array or an object is read, and nothing else.
  pub loads-opens : (t : Bytes) (v : Json) → json_loads t ≡ some v → opens t ≡ true
  pub is_utf8-ascii : (s : Bytes) → all (λ c. ltb c 128) s ≡ true → is_utf8 s ≡ true
  pub json_object-IsPrintable : IsPrintable json_object
  -- `json_object_set_new_nocheck` does not look at the key.
  pub set-IsPrintable :
      (o v : Json) (k : Bytes)
      → IsPrintable o
      → IsPrintable v
      → is_utf8 k ≡ true
      → IsPrintable (json_object_set o k (some v))
  pub json_integer-IsPrintable : (n : ℤ) → IsPrintable (json_integer n)
  pub json_boolean-IsPrintable : (b : Bool) → IsPrintable (json_boolean b)
  pub json_string-IsPrintable : (s : Bytes) (v : Json) → json_string s ≡ some v → IsPrintable v
  pub json_real-IsPrintable : (x : Real) (v : Json) → json_real x ≡ some v → IsPrintable v
  pub json_loads-IsPrintable : (t : Bytes) (v : Json) → json_loads t ≡ some v → IsPrintable v
  -- With `JSON_ENCODE_ANY`, such a value has a text.
  pub dumps-IsPrintable : (v : Json) → IsPrintable v → (t : Bytes) × (json_dumps compact v ≡ some t)

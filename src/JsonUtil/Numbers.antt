-- ===== src/JsonUtil/Numbers.antt =====
-- How the accessors of include/jsonutil.hpp read numbers.
use as_proxyd.Common.{
  ℕ, Bool, if◌then◌else◌, ◌<◌, ◌^◌, ◌%◌, true, false, Option, some, ◌≡◌, refl, ◌∙◌, ap, arith, all,
  is_dec, Bytes, bytes_eq, bytes_eq_iff, ℤ, pos, until_nul, signed32, to_int,
}
use as_proxyd.Jansson.{Jansson, JsonType, object, integer, string}
use as_proxyd.JsonUtil.{
  member, int_for, int_or, get_json_int_value, get_json_int_value_default, get_json_obj_int_value,
}
use as_proxyd.Parser.{digits_value}
use as_proxyd.Util.Atou.{fast_atou_lem}

small_int : (n : ℕ) → n < 2 ^ 31 → signed32 (n % 2 ^ 32) ≡ pos n
small_int n h = ground arith

module _ (J : Jansson) where
  open J use {
    Json, json_typeof, json_object_get, json_object_set, json_integer_value, json_string_value,
  }

  -- A value that stands for the number: an integer, or a string of its decimal digits.
  abbrev pub Spells : ℕ → JsonType → Json → Type 0
  Spells n integer v = json_integer_value v ≡ pos n
  Spells n string v =
      (all is_dec (json_string_value v) ≡ true) × (digits_value 0 (json_string_value v) ≡ n)
  Spells n _ v = ⊥

  int_for-Spells :
      (n : ℕ) (t : JsonType) (v : Json) (def : ℤ)
      → n < 2 ^ 31
      → Spells n t v
      → int_for J t v def ≡ pos n
  unfolding int_for
  int_for-Spells n integer v def h e = ap to_int e ∙ small_int n h
  int_for-Spells n string v def h (d, e) =
      ap signed32 (fast_atou_lem (json_string_value v) d ∙ ap (λ x. x % 2 ^ 32) e) ∙ small_int n h
  int_for-Spells n _ v def h e = absurd e

  member-set :
      (root v : Json) (k j : Bytes)
      → json_typeof root ≡ object
      → member J (some (json_object_set root k (some v))) j
        ≡ (if bytes_eq k (until_nul j) then some v else member J (some root) j)
  unfolding member
  member-set root v k j e = J.get-set root v k (until_nul j) e

  chosen :
      (v : Json) (def z : ℤ) (c : Bool) (m : Option Json)
      → int_for J (json_typeof v) v def ≡ z
      → int_or J (if c then some v else m) def ≡ (if c then z else int_or J m def)
  unfolding int_or
  chosen v def z true m e = e
  chosen v def z false m e = refl

  -- A number below 2^31 is stored in an object under a key without a NUL, as an integer or as a string of
  -- its digits. Every accessor for an `int` gives the number back, whatever the default is, and each
  -- other key reads as it did before.
  pub get_json_int_value-set :
      (root v : Json) (k : Bytes) (n : ℕ) (def : ℤ)
      → json_typeof root ≡ object
      → until_nul k ≡ k
      → n < 2 ^ 31
      → Spells n (json_typeof v) v
      → (get_json_int_value J (some (json_object_set root k (some v))) k ≡ pos n)
        × (get_json_int_value_default J (some (json_object_set root k (some v))) k def ≡ pos n)
        × (get_json_obj_int_value J (some v) ≡ pos n)
        × ((j : Bytes)
            → get_json_int_value_default J (some (json_object_set root k (some v))) j def ≡ (
                if bytes_eq k (until_nul j)
                then pos n
                else get_json_int_value_default J (some root) j def))
  unfolding get_json_int_value get_json_int_value_default get_json_obj_int_value int_or
  get_json_int_value-set root v k n def o z h s =
      let e : member J (some (json_object_set root k (some v))) k ≡ some v =
        member-set root v k k o ∙ rw z (rw ((bytes_eq_iff k k).1 refl) refl) in
      (
        rw e (int_for-Spells n (json_typeof v) v (pos 0) h s),
        rw e (int_for-Spells n (json_typeof v) v def h s),
        int_for-Spells n (json_typeof v) v (pos 0) h s,
        λ j.
            ap (λ x. int_or J x def) (member-set root v k j o)
            ∙ chosen v def (pos n) (bytes_eq k (until_nul j)) (member J (some root) j)
                (int_for-Spells n (json_typeof v) v def h s),
      )

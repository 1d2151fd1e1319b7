-- ===== src/JsonUtil/Tests.antt =====
-- The theorem on the accessors (include/jsonutil.hpp) at a concrete object.
use as_proxyd.Common.{
  if◌then◌else◌, some, ◌≡◌, refl, arith, Bytes, codes, bytes_eq, is_dec, pos, negsuc, until_nul,
}
use as_proxyd.Jansson.Model.{jansson, Value, str, int, obj, end, field, type_of, text_of}
use as_proxyd.JsonUtil.{get_json_int_value, get_json_int_value_default, get_json_obj_int_value}
use as_proxyd.JsonUtil.Numbers.{get_json_int_value-set}
use as_proxyd.Parser.{digits_value}

abbrev root : Value
root = obj (field (codes "port") (int (pos 80)) end)

int_value_stored :
    (get_json_int_value jansson
        (some (jansson.json_object_set root (codes "ttl") (some (str (codes "0420")))))
        (codes "ttl")
      ≡ pos 420)
    × (get_json_int_value_default jansson
          (some (jansson.json_object_set root (codes "ttl") (some (str (codes "0420")))))
          (codes "ttl")
          (negsuc 0)
        ≡ pos 420)
    × (get_json_obj_int_value jansson (some (str (codes "0420"))) ≡ pos 420)
    × ((j : Bytes)
        → get_json_int_value_default jansson
            (some (jansson.json_object_set root (codes "ttl") (some (str (codes "0420")))))
            j
            (negsuc 0)
          ≡ (if bytes_eq (codes "ttl") (until_nul j)
              then pos 420
              else get_json_int_value_default jansson (some root) j (negsuc 0)))
unfolding type_of text_of digits_value until_nul is_dec
int_value_stored =
    get_json_int_value-set jansson root (str (codes "0420")) (codes "ttl") 420 (negsuc 0) refl refl
      (omega arith) (refl, refl)

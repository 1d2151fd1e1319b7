-- ===== src/AsObject/Tests.antt =====
-- Runs of the code on the client object (include/as_object.hpp), on a cluster of one record.
use as_proxyd.Aerospike.{Key, AsValue, integer, string}
use as_proxyd.Aerospike.Model.{toy}
use as_proxyd.AsObject.{AsObject, put, get}
use as_proxyd.AsObject.Again.{sent, get-put}
use as_proxyd.AsObject.Alive.{calls, checks, asks, removes, calls-dead}
use as_proxyd.AsObject.Convert.{add_bin, data_convert_to_json_v1, string_value}
use as_proxyd.AsObject.Convert.Members.{data_convert-Holds, Holds, last_shown}
use as_proxyd.AsObject.Convert.Strings.{add_bin-lost, string_value-encode}
use as_proxyd.AsObject.Store.{put_bins}
use as_proxyd.AsObject.Store.Returned.{put_bins-data_convert, last_returned}
use as_proxyd.Base64.{
  is_base64, decode_loop, decode_rest, byte_0, find, base64_encode, base64_decode,
}
use as_proxyd.Base64.RoundTrip.{IsBytes}
use as_proxyd.Common.{
  true, false, List, [], ◌∷◌, Option, none, some, ◌≡◌, refl, arith, Bytes, codes, pos, negsuc,
  until_nul, inl,
}
use as_proxyd.AsObject.Uses.Put.{put_uses, put-uses}
use as_proxyd.Ownership.{run_uses, value}
use as_proxyd.Jansson.{object}
use as_proxyd.Jansson.Model.{
  bool, type_of, get_member, text_of, jansson, Value, int, str, obj, end, field, members_of,
  list_of, size_of, size, int_of,
}

abbrev pub gunzip : Bytes → Option Bytes
gunzip s = none

abbrev show : Bytes → Bytes
show s = s

abbrev some_key : Key
some_key = record { ns = codes "test"; set = codes "demo"; key = codes "7" }

abbrev dead : AsObject
dead = record {
  config = record { hosts = []; timeouts = record { read = 9; apply = 9 } };
  err_code = negsuc 0;
  isalive = false;
}

idle_object :
    calls toy jansson gunzip show (checks ∷ asks ∷ removes some_key ∷ []) dead none
    ≡ some (dead, none)
idle_object =
    calls-dead toy jansson gunzip show (checks ∷ asks ∷ removes some_key ∷ []) dead none refl

abbrev bins : List (Bytes × AsValue)
bins = (codes "n", integer (pos 7)) ∷ (codes "s", string (some (codes "!x"))) ∷ []

data_convert-Holds_example :
    (r : Value) × (data_convert_to_json_v1 jansson gunzip bins (obj end) ≡ some r)
    × Holds jansson gunzip r (λ k. last_shown jansson gunzip bins k none)
unfolding type_of get_member
data_convert-Holds_example =
    data_convert-Holds jansson gunzip bins (obj end) (λ k. none) (tt, (tt, tt)) (refl, λ k. refl)

-- A name, as README.rst stores it.
add_bin-lost_example :
    add_bin jansson gunzip (codes "username", string (some (codes "user1"))) (obj end)
    ≡ some (obj end)
unfolding base64_decode decode_loop decode_rest is_base64 byte_0 find
add_bin-lost_example =
    add_bin-lost jansson gunzip (codes "username") (codes "user1") (obj end) refl refl refl refl

text-IsBytes : IsBytes (codes "[1]")
text-IsBytes = omega arith

string_value_document :
    string_value jansson gunzip (base64_encode (codes "[1]")) ≡ jansson.json_loads (codes "[1]")
string_value_document =
    string_value-encode jansson gunzip (codes "[1]") (codes "[1]") text-IsBytes refl refl
      (inl (refl, refl))

abbrev members : List (Bytes × Value)
members = (codes "n", int (pos 7)) ∷ (codes "s", str (codes "!x")) ∷ []

put_bins-data_convert_example :
    (bs : List (Bytes × AsValue)) × (put_bins jansson toy.is_bin_name show members ≡ some bs)
    × (r : Value) × (data_convert_to_json_v1 jansson gunzip bs (obj end) ≡ some r)
    × (jansson.json_typeof r ≡ object)
    × ((k : Bytes)
        → jansson.json_object_get r k
          ≡ last_returned jansson toy.is_bin_name show gunzip members k none)
unfolding type_of text_of is_base64
put_bins-data_convert_example =
    put_bins-data_convert jansson toy.is_bin_name show gunzip members
      (refl, tt, (refl, (refl, refl, refl), tt))

abbrev live : AsObject
live = record dead { err_code = pos 0; isalive = true }

abbrev document : Value
document = obj (field (codes "n") (int (pos 7)) (field (codes "s") (str (codes "!x")) end))

abbrev stored_bins : List (Bytes × AsValue)
stored_bins = (codes "n", integer (pos 7)) ∷ (codes "s", string (some (codes "!x"))) ∷ []

get-put_example :
    (put toy jansson gunzip show some_key document (pos 60) live none
      ≡ some (pos 0, live, some (sent toy jansson gunzip show stored_bins (pos 60))))
    × (r : Value) × (get toy jansson gunzip some_key
          (record { bins = obj end; ttl = 0; gen = 0 })
          live
          (some (sent toy jansson gunzip show stored_bins (pos 60)))
        ≡ some (
          pos 0,
          record { bins = r; ttl = 60; gen = 0 },
          live,
          some (sent toy jansson gunzip show stored_bins (pos 60)),
        ))
    × Holds jansson gunzip r (λ j. last_returned jansson toy.is_bin_name show gunzip members j none)
unfolding type_of text_of is_base64 put_bins members_of list_of size_of size int_of until_nul
get-put_example =
    get-put toy jansson gunzip show some_key document (pos 60) live none _ _ _
      (codes "n", integer (pos 7)) ((codes "s", string (some (codes "!x"))) ∷ []) [] refl refl
      (refl, tt, (refl, (refl, refl, refl), tt)) refl refl refl refl tt

-- A document with a name that is too long for a bin.
abbrev measured : Value
measured = obj (
    field (codes "n") (int (pos 7))
      (field (codes "a_name_of_twenty_one_b") (int (pos 8)) (field (codes "b") (bool true) end)))

put-uses_example : run_uses (put_uses jansson toy.is_bin_name measured live) [] ≡ some (value ∷ [])
unfolding put put_bins type_of size members_of list_of size_of
put-uses_example = put-uses toy jansson gunzip show some_key measured (pos 60) live none _ refl

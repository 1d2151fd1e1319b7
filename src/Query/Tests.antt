-- ===== src/Query/Tests.antt =====
-- A query, and its theorem at a concrete input.
use mathlib.Core.Quot
use as_proxyd.Boost.{join}
use as_proxyd.Boost.Model.{boost}
use as_proxyd.Common.{arith, bytes_eq_iff, Bytes, List, [], ◌∷◌, map, ◌≡◌, refl, codes, bytes_eq}
use as_proxyd.Query.{map_get, parse_query}
use as_proxyd.Query.Abstract.{ParamMap, value, put_parts, parse_map, parse_map-put_parts}
use as_proxyd.Query.Order.{Reordered, keep, swap, after}
use as_proxyd.Query.Print.{Part, pair, bare, print_part, map_get-parse_query}

abbrev parts : List Part
parts =
    pair (codes "ns") (codes "a=b") ∷ bare (codes "debug") ∷ pair (codes "ns") (codes "test") ∷ []

parts_printed : join b'&' (map print_part parts) ≡ codes "ns=a=b&debug&ns=test"
unfolding join
parts_printed = refl

ns_is_last :
    map_get (parse_query boost (join b'&' (map print_part parts)) []) (codes "ns") [] ≡ codes "test"
unfolding bytes_eq
ns_is_last =
    map_get-parse_query boost parts [] (codes "ns") []
      ((refl, refl, refl), ((refl, refl), ((refl, refl, refl), tt)))

-- The namespace, a flag and the key; in the second order the flag comes first.
abbrev in_order : List Part
in_order =
    pair (codes "ns") (codes "test") ∷ bare (codes "debug") ∷ pair (codes "key") (codes "7") ∷ []

abbrev flag_first : List Part
flag_first =
    bare (codes "debug") ∷ pair (codes "key") (codes "7") ∷ pair (codes "ns") (codes "test") ∷ []

flag_first-Reordered : Reordered in_order flag_first
unfolding bytes_eq
flag_first-Reordered = after (swap _ _ tt) (keep _ (swap _ _ refl))

-- One map in two orders of its entries.
abbrev ttl_first : ParamMap
ttl_first = Quot.mk ((codes "ttl", codes "1") ∷ (codes "set", codes "a") ∷ [])

abbrev set_first : ParamMap
set_first = Quot.mk ((codes "set", codes "a") ∷ (codes "ttl", codes "1") ∷ [])

orders_alike : (k d : Bytes) → value ttl_first k d ≡ value set_first k d
unfolding map_get
orders_alike k d = ground (arith, bytes_eq_iff (codes "ttl") k, bytes_eq_iff (codes "set") k)

parse_map-put_parts_example :
    (ttl_first ≡ set_first)
    × (parse_map boost (join b'&' (map print_part in_order)) ttl_first
        ≡ put_parts in_order ttl_first)
    × (parse_map boost (join b'&' (map print_part flag_first)) set_first
        ≡ parse_map boost (join b'&' (map print_part in_order)) ttl_first)
parse_map-put_parts_example =
    parse_map-put_parts boost in_order flag_first ttl_first set_first
      ((refl, refl, refl), ((refl, refl), ((refl, refl, refl), tt))) flag_first-Reordered
      orders_alike

-- ===== src/Query.antt =====
-- `request_handler::parse_query` (src/request_handler.cpp) and `map_get` (src/util.cpp). The
-- `boost::unordered_map` is a list of pairs with one entry for each key.
pub mod Print
pub mod Order
pub mod Abstract
mod Tests
use as_proxyd.Boost.{Boost}
use as_proxyd.Common.{
  ℕ, suc, ◌+◌, Bool, true, false, List, [], ◌∷◌, Option, none, some, if◌then◌else◌, ◌==◌, Bytes,
  bytes_eq, take, drop,
}
use as_proxyd.Parser.{is_empty}

abbrev pub Params : Type 0
Params = List (Bytes × Bytes)

-- `map[key] = value`.
unfoldable pub insert : Bytes → Bytes → Params → Params
insert k v [] = (k, v) ∷ []
insert k v ((j, w) ∷ m) = if bytes_eq j k then (j, v) ∷ m else (j, w) ∷ insert k v m

-- `map_get`.
unfoldable pub map_get : Params → Bytes → Bytes → Bytes
map_get [] k d = d
map_get ((j, w) ∷ m) k d = if bytes_eq j k then w else map_get m k d

-- `std::string::find` of one character, from position 0.
unfoldable pub find_byte : ℕ → Bytes → Option ℕ
find_byte c [] = none
find_byte c (x ∷ xs) =
    if x == c then some 0 else elim (find_byte c xs) [ none ↦ none | some i ↦ some (suc i) ]

-- One round of the loop over `vars`.
unfoldable pub add_pair : Bytes → Params → Params
add_pair pair m = elim (find_byte b'=' pair) [
  | none ↦ m
  | some sep ↦ insert (take sep pair) (drop (sep + 1) pair) m
]

unfoldable pub add_pairs : List Bytes → Params → Params
unfolding add_pair
add_pairs [] m = m
add_pairs (p ∷ ps) m = add_pairs ps (add_pair p m)

unfoldable pub parse_query : Boost → Bytes → Params → Params
unfolding add_pairs
parse_query b query m = if is_empty query then m else add_pairs (b.split b'&' query) m

-- ===== src/Query/Print.antt =====
-- What `parse_query` (src/request_handler.cpp) makes of a query string.
use as_proxyd.Boost.{Boost, join, free_of}
use as_proxyd.Boost.Model.{split-determined}
use as_proxyd.Common.{
  ℕ, suc, ◌+◌, true, List, [], ◌∷◌, ◌++◌, map, none, some, ◌≡◌, refl, ◌∙◌, sym, ap, arith,
  if◌then◌else◌, All, Bytes, bytes_eq, bytes_eq_iff, take, drop, length, Bool-cases, inl, inr,
}
use as_proxyd.Parser.{is_empty}
use as_proxyd.Query.{Params, insert, map_get, find_byte, add_pair, add_pairs, parse_query}

-- A part of a query: `key=value`, or a text without `=`.
pub data Part : Type 0 where
  pair : Bytes → Bytes → Part
  bare : Bytes → Part

abbrev pub print_part : Part → Bytes
print_part (pair k v) = k ++ (b'=' ∷ v)
print_part (bare t) = t

-- The separators do not stand where they would be read as such.
abbrev pub IsPart : Part → Type 0
IsPart (pair k v) = (free_of b'=' k ≡ true) × (free_of b'&' k ≡ true) × (free_of b'&' v ≡ true)
IsPart (bare t) = (free_of b'=' t ≡ true) × (free_of b'&' t ≡ true)

-- The value of the last part with that key, or the default.
abbrev pub last_value : List Part → Bytes → Bytes → Bytes
last_value [] k d = d
last_value (pair j v ∷ ps) k d = last_value ps k (if bytes_eq j k then v else d)
last_value (bare t ∷ ps) k d = last_value ps k d

pub map_get-insert :
    (j k v d : Bytes) (m : Params)
    → map_get (insert j v m) k d ≡ (if bytes_eq j k then v else map_get m k d)
unfolding map_get insert
map_get-insert j k v d [] = refl
map_get-insert j k v d ((i, w) ∷ m) =
    ground (arith, bytes_eq_iff i j, bytes_eq_iff i k, bytes_eq_iff j k, map_get-insert j k v d m)

pub find_byte-free : (c : ℕ) (s : Bytes) → free_of c s ≡ true → find_byte c s ≡ none
unfolding find_byte
find_byte-free c [] h = refl
find_byte-free c (x ∷ xs) h = ground (arith, find_byte-free c xs)

pub find_byte-append :
    (c : ℕ) (s t : Bytes) → free_of c s ≡ true → find_byte c (s ++ (c ∷ t)) ≡ some (length s)
unfolding find_byte
find_byte-append c [] t h = ground arith
find_byte-append c (x ∷ xs) t h = ground (arith, find_byte-append c xs t)

pub take_front : (s t : Bytes) → take (length s) (s ++ t) ≡ s
take_front [] t = refl
take_front (x ∷ xs) t = ap (◌∷◌ x) (take_front xs t)

pub drop_front : (c : ℕ) (s t : Bytes) → drop (length s + 1) (s ++ (c ∷ t)) ≡ t
drop_front c [] t = refl
drop_front c (x ∷ xs) t =
    rw (let e : suc (length xs) + 1 ≡ suc (length xs + 1) = omega arith in e) (drop_front c xs t)

add_pair-pair :
    (k v : Bytes) (m : Params) → free_of b'=' k ≡ true → add_pair (k ++ (b'=' ∷ v)) m ≡ insert k v m
unfolding add_pair
add_pair-pair k v m h =
    rw (find_byte-append b'=' k v h, add_pair) (rw (take_front k (b'=' ∷ v), drop_front b'=' k v))

add_pair-bare : (t : Bytes) (m : Params) → free_of b'=' t ≡ true → add_pair t m ≡ m
unfolding add_pair
add_pair-bare t m h = rw (find_byte-free b'=' t h, add_pair)

free_of-pair :
    (k v : Bytes)
    → free_of b'&' k ≡ true
    → free_of b'&' v ≡ true
    → free_of b'&' (k ++ (b'=' ∷ v)) ≡ true
free_of-pair [] v h g = g
free_of-pair (x ∷ k) v h g = ground (arith, free_of-pair k v)

map_get-add_pairs :
    (ps : List Part) (m : Params) (k d : Bytes)
    → All IsPart ps
    → map_get (add_pairs (map print_part ps) m) k d ≡ last_value ps k (map_get m k d)
unfolding add_pairs
map_get-add_pairs [] m k d a = refl
map_get-add_pairs (pair j v ∷ ps) m k d ((h, _, _), a) =
    rw (add_pair-pair j v m h, add_pairs)
      (map_get-add_pairs ps (insert j v m) k d a ∙ ap (last_value ps k) (map_get-insert j k v d m))
map_get-add_pairs (bare t ∷ ps) m k d ((h, _), a) =
    rw (add_pair-bare t m h, add_pairs) (map_get-add_pairs ps m k d a)

map-print_part-free :
    (ps : List Part) → All IsPart ps → All (λ t. free_of b'&' t ≡ true) (map print_part ps)
map-print_part-free [] a = tt
map-print_part-free (pair k v ∷ ps) ((_, h, g), a) =
    (free_of-pair k v h g, map-print_part-free ps a)
map-print_part-free (bare t ∷ ps) ((_, h), a) = (h, map-print_part-free ps a)

-- The query is empty for one empty part only.
empty_query :
    (p : Part) (ps : List Part) (k d : Bytes)
    → is_empty (join b'&' (map print_part (p ∷ ps))) ≡ true
    → last_value (p ∷ ps) k d ≡ d
unfolding join
empty_query (bare []) [] k d e = refl
empty_query (bare []) (q ∷ ps) k d e = cc
empty_query (bare (x ∷ t)) [] k d e = cc
empty_query (bare (x ∷ t)) (q ∷ ps) k d e = cc
empty_query (pair [] v) [] k d e = cc
empty_query (pair [] v) (q ∷ ps) k d e = cc
empty_query (pair (x ∷ j) v) [] k d e = cc
empty_query (pair (x ∷ j) v) (q ∷ ps) k d e = cc

-- After `parse_query` a key has the value of the last part that gives it one, or what it had before,
-- or the default; parts with no `=` change nothing.
pub map_get-parse_query :
    (b : Boost) (ps : List Part) (m : Params) (k d : Bytes)
    → All IsPart ps
    → map_get (parse_query b (join b'&' (map print_part ps)) m) k d
      ≡ last_value ps k (map_get m k d)
unfolding parse_query
map_get-parse_query b [] m k d a = unfold join in refl
map_get-parse_query b (p ∷ ps) m k d a =
    elim (Bool-cases (is_empty (join b'&' (map print_part (p ∷ ps))))) [
      | inl e ↦ rw e (sym (empty_query p ps k (map_get m k d) e))
      | inr e ↦ rw e (
          rw
            (split-determined b b'&' (map print_part (p ∷ ps)) refl
              (map-print_part-free (p ∷ ps) a))
            (map_get-add_pairs (p ∷ ps) m k d a))
    ]

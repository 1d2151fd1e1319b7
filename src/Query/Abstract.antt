-- ===== src/Query/Abstract.antt =====
-- The map behind `parse_query` and `map_get` (src/request_handler.cpp, src/util.cpp), as a
-- `boost::unordered_map` is seen: by what it answers, without the order of its entries.
use mathlib.Core.Quot
use mathlib.Core.Quot.{Quot, Quot-set}
use as_proxyd.Boost.{Boost, join}
use as_proxyd.Common.{
  arith, List, [], ◌∷◌, ◌≡◌, refl, ◌∙◌, sym, ap, map, if◌then◌else◌, All, Bytes, bytes_eq,
}
use as_proxyd.Query.{Params, insert, map_get, add_pair, add_pairs, parse_query}
use as_proxyd.Query.Order.{Reordered, All-Reordered, last_value-Reordered}
use as_proxyd.Query.Print.{
  Part, pair, bare, print_part, IsPart, last_value, map_get-insert, map_get-parse_query,
}

pub Bytes-IsSet : IsSet Bytes
Bytes-IsSet = hlevel

-- Two maps that answer alike, whatever the key and the default.
abbrev pub SameAnswers : Params → Params → Type 0
SameAnswers m n = (k d : Bytes) → map_get m k d ≡ map_get n k d

abbrev pub ParamMap : Type 0
ParamMap = Quot SameAnswers

-- `map_get`.
abbrev pub value : ParamMap → Bytes → Bytes → Bytes
value x k d = Quot.lift Bytes-IsSet (λ m. map_get m k d) (λ m n h. h k d) x

pub insert-SameAnswers :
    (j v : Bytes) (m n : Params) → SameAnswers m n → SameAnswers (insert j v m) (insert j v n)
insert-SameAnswers j v m n h k d =
    map_get-insert j k v d m
    ∙ ap (λ t. if bytes_eq j k then v else t) (h k d)
    ∙ sym (map_get-insert j k v d n)

-- `map[key] = value`.
abbrev pub put_value : Bytes → Bytes → ParamMap → ParamMap
put_value j v =
    Quot.lift Quot-set (λ m. Quot.mk (insert j v m))
      (λ m n h. Quot.sound (insert-SameAnswers j v m n h))

add_pair-SameAnswers :
    (p : Bytes) (m n : Params) → SameAnswers m n → SameAnswers (add_pair p m) (add_pair p n)
unfolding add_pair
add_pair-SameAnswers p m n h k d = grind (arith, map_get-insert, h k d)

add_pairs-SameAnswers :
    (ps : List Bytes) (m n : Params)
    → SameAnswers m n
    → SameAnswers (add_pairs ps m) (add_pairs ps n)
unfolding add_pairs
add_pairs-SameAnswers [] m n h = h
add_pairs-SameAnswers (p ∷ ps) m n h =
    add_pairs-SameAnswers ps (add_pair p m) (add_pair p n) (add_pair-SameAnswers p m n h)

pub parse_query-SameAnswers :
    (b : Boost) (q : Bytes) (m n : Params)
    → SameAnswers m n
    → SameAnswers (parse_query b q m) (parse_query b q n)
unfolding parse_query
parse_query-SameAnswers b q m n h k d =
    ground (arith, h k d, add_pairs-SameAnswers (b.split b'&' q) m n h k d)

-- `parse_query`.
abbrev pub parse_map : Boost → Bytes → ParamMap → ParamMap
parse_map b q =
    Quot.lift Quot-set (λ m. Quot.mk (parse_query b q m))
      (λ m n h. Quot.sound (parse_query-SameAnswers b q m n h))

-- The assignments of the parts, one after another.
abbrev pub put_parts : List Part → ParamMap → ParamMap
put_parts [] x = x
put_parts (pair k v ∷ ps) x = put_parts ps (put_value k v x)
put_parts (bare t ∷ ps) x = put_parts ps x

-- Maps that answer alike are one.
ParamMap-ext : (x y : ParamMap) → ((k d : Bytes) → value x k d ≡ value y k d) → x ≡ y
ParamMap-ext =
    Quot.ind {β = λ x. (y : ParamMap) → ((k d : Bytes) → value x k d ≡ value y k d) → x ≡ y}
      (λ x. hlevel (Quot-set))
      (λ m.
        Quot.ind {β = λ y. ((k d : Bytes) → map_get m k d ≡ value y k d) → Quot.mk m ≡ y}
          (λ y. hlevel (Quot-set)) (λ n h. Quot.sound h))

value-parse_map :
    (b : Boost) (ps : List Part) (x : ParamMap) (k d : Bytes)
    → All IsPart ps
    → value (parse_map b (join b'&' (map print_part ps)) x) k d ≡ last_value ps k (value x k d)
value-parse_map b ps x k d a =
    Quot.ind
      {β = λ y.
        value (parse_map b (join b'&' (map print_part ps)) y) k d ≡ last_value ps k (value y k d)}
      (λ y. Bytes-IsSet _ _) (λ m. map_get-parse_query b ps m k d a) x

value-put_value :
    (x : ParamMap) (j v k d : Bytes)
    → value (put_value j v x) k d ≡ (if bytes_eq j k then v else value x k d)
value-put_value x j v k d =
    Quot.ind {β = λ y. value (put_value j v y) k d ≡ (if bytes_eq j k then v else value y k d)}
      (λ y. Bytes-IsSet _ _) (λ m. map_get-insert j k v d m) x

value-put_parts :
    (ps : List Part) (x : ParamMap) (k d : Bytes)
    → value (put_parts ps x) k d ≡ last_value ps k (value x k d)
value-put_parts [] x k d = refl
value-put_parts (pair j v ∷ ps) x k d =
    value-put_parts ps (put_value j v x) k d ∙ ap (last_value ps k) (value-put_value x j v k d)
value-put_parts (bare t ∷ ps) x k d = value-put_parts ps x k d

-- The type of maps up to what they answer: those that answer alike are equal. On it, to read a query is to
-- make the assignments of its parts one after another; and from equal maps a query that gives the parts in
-- another order, those of one key as they were, comes to the same map.
pub parse_map-put_parts :
    (b : Boost) (ps qs : List Part) (x y : ParamMap)
    → All IsPart ps
    → Reordered ps qs
    → ((k d : Bytes) → value x k d ≡ value y k d)
    → (x ≡ y)
      × (parse_map b (join b'&' (map print_part ps)) x ≡ put_parts ps x)
      × (parse_map b (join b'&' (map print_part qs)) y
          ≡ parse_map b (join b'&' (map print_part ps)) x)
parse_map-put_parts b ps qs x y a r h = (
  ParamMap-ext x y h,
  ParamMap-ext _ _ (λ k d. value-parse_map b ps x k d a ∙ sym (value-put_parts ps x k d)),
  ParamMap-ext _ _ (λ k d.
      value-parse_map b qs y k d (All-Reordered r a)
      ∙ ap (last_value qs k) (sym (h k d))
      ∙ sym (last_value-Reordered r k (value x k d))
      ∙ sym (value-parse_map b ps x k d a)),
)

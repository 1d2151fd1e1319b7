-- ===== src/Query/Order.antt =====
-- The order of the parts of a query, which `parse_query` (src/request_handler.cpp) reads into a map.
use as_proxyd.Common.{
  false, List, ◌∷◌, ◌≡◌, refl, ◌∙◌, ap, arith, if◌then◌else◌, All, Bytes, bytes_eq, bytes_eq_iff,
}
use as_proxyd.Query.Print.{Part, pair, bare, IsPart, last_value}

-- Two parts that do not give a value to one key.
abbrev pub Apart : Part → Part → Type 0
Apart (pair j v) (pair k w) = bytes_eq j k ≡ false
Apart (pair j v) (bare t) = Unit
Apart (bare s) q = Unit

-- The same parts in another order, in which those of one key stay as they are.
pub data Reordered : List Part → List Part → Type 0 where
  same : {ps : List Part} → Reordered ps ps
  keep : (p : Part) {ps qs : List Part} → Reordered ps qs → Reordered (p ∷ ps) (p ∷ qs)
  swap : (p q : Part) {ps : List Part} → Apart p q → Reordered (p ∷ q ∷ ps) (q ∷ p ∷ ps)
  after : {ps qs rs : List Part} → Reordered ps qs → Reordered qs rs → Reordered ps rs

pub All-Reordered : {ps qs : List Part} → Reordered ps qs → All IsPart ps → All IsPart qs
All-Reordered same a = a
All-Reordered (keep p r) (h, a) = (h, All-Reordered r a)
All-Reordered (swap p q n) (h, (g, a)) = (g, (h, a))
All-Reordered (after r s) a = All-Reordered s (All-Reordered r a)

apart_value :
    (i j k v w d : Bytes)
    → bytes_eq i j ≡ false
    → (if bytes_eq j k then w else if bytes_eq i k then v else d)
      ≡ (if bytes_eq i k then v else if bytes_eq j k then w else d)
apart_value i j k v w d n = ground (arith, bytes_eq_iff i j, bytes_eq_iff i k, bytes_eq_iff j k)

-- Each key has the value that it had.
pub last_value-Reordered :
    {ps qs : List Part} → Reordered ps qs → (k d : Bytes) → last_value ps k d ≡ last_value qs k d
last_value-Reordered same k d = refl
last_value-Reordered (keep (pair j v) r) k d = last_value-Reordered r k _
last_value-Reordered (keep (bare t) r) k d = last_value-Reordered r k d
last_value-Reordered (swap (pair i v) (pair j w) {ps = ps} n) k d =
    ap (last_value ps k) (apart_value i j k v w d n)
last_value-Reordered (swap (pair i v) (bare t) n) k d = refl
last_value-Reordered (swap (bare s) (pair j w) n) k d = refl
last_value-Reordered (swap (bare s) (bare t) n) k d = refl
last_value-Reordered (after r s) k d = last_value-Reordered r k d ∙ last_value-Reordered s k d

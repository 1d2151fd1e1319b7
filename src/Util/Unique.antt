-- ===== src/Util/Unique.antt =====
-- `vector_unique_list` (src/util.cpp).
use as_proxyd.Common.{
  Bool, true, false, not, ◌&&◌, ◌||◌, List, [], ◌∷◌, ◌++◌, ◌≡◌, refl, ◌∙◌, ap, arith, if◌then◌else◌,
  Bytes, bytes_eq, bytes_eq_iff,
}
use as_proxyd.Util.{has, unique_from, vector_unique_list}

-- No string stands in the list twice.
unfoldable pub distinct : List Bytes → Bool
distinct [] = true
distinct (s ∷ ts) = not (has s ts) && distinct ts

has-append : (s : Bytes) (xs ys : List Bytes) → has s (xs ++ ys) ≡ (has s xs || has s ys)
unfolding has
has-append s [] ys = refl
has-append s (x ∷ xs) ys = ground (arith, has-append s xs ys)

distinct-append :
    (xs : List Bytes) (s : Bytes)
    → distinct xs ≡ true
    → has s xs ≡ false
    → distinct (xs ++ s ∷ []) ≡ true
unfolding distinct has
distinct-append [] s d h = refl
distinct-append (x ∷ xs) s d h =
    ground
      (arith, distinct-append xs s, has-append x xs (s ∷ []), bytes_eq_iff s x, bytes_eq_iff x s)

has-same : (k s : Bytes) (r : List Bytes) → bytes_eq s k ≡ true → has s r ≡ has k r
has-same k s r e = ap (λ x. has x r) ((bytes_eq_iff s k).0 e)

has-kept :
    (k s : Bytes) (r : List Bytes)
    → has k (if has s r then r else r ++ s ∷ []) ≡ (has k r || bytes_eq s k)
unfolding has
has-kept k s r = ground (arith, has-append k r (s ∷ []), has-same k s r)

distinct-kept :
    (s : Bytes) (r : List Bytes)
    → distinct r ≡ true
    → distinct (if has s r then r else r ++ s ∷ []) ≡ true
distinct-kept s r d = ground (arith, distinct-append r s)

has-unique_from :
    (k : Bytes) (input r : List Bytes) → has k (unique_from r input) ≡ (has k r || has k input)
unfolding unique_from has
has-unique_from k [] r = ground arith
has-unique_from k (s ∷ input) r = has-unique_from k input _ ∙ rw (has-kept k s r) (ground arith)

distinct-unique_from :
    (input r : List Bytes) → distinct r ≡ true → distinct (unique_from r input) ≡ true
unfolding unique_from
distinct-unique_from [] r d = d
distinct-unique_from (s ∷ input) r d = distinct-unique_from input _ (distinct-kept s r d)

-- The result holds the strings of the input, each of them once.
pub vector_unique_list-distinct :
    (input : List Bytes)
    → (distinct (vector_unique_list input) ≡ true)
      × ((s : Bytes) → has s (vector_unique_list input) ≡ has s input)
unfolding vector_unique_list has
vector_unique_list-distinct input =
    (distinct-unique_from input [] (unfold distinct in refl), λ s. has-unique_from s input [])

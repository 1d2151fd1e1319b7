-- ===== src/Boost/Model.antt =====
-- Functions that meet what is assumed of Boost, for the witnesses.
use as_proxyd.Common.{
  ℕ, zero, suc, ◌+◌, ◌-◌, ◌*◌, ◌/◌, ◌%◌, ◌<◌, true, false, List, [], ◌∷◌, ◌++◌, map, ◌≡◌, refl, sym,
  ◌∙◌, ap, arith, ◌==◌, ltb, all, All, all-append, Bytes, to_lower, is_dec, if◌then◌else◌,
}
use as_proxyd.Parser.{is_empty, digits_value}
use as_proxyd.Boost.{join, free_of, without, Boost}

-- Puts a byte in front of the first piece.
push : ℕ → List Bytes → List Bytes
push c [] = (c ∷ []) ∷ []
push c (t ∷ ts) = (c ∷ t) ∷ ts

pub split : ℕ → Bytes → List Bytes
unfolding push
split c [] = [] ∷ []
split c (x ∷ xs) = if x == c then [] ∷ split c xs else push x (split c xs)

pub split_ne : (c : ℕ) (s : Bytes) → is_empty (split c s) ≡ false
unfolding split
split_ne c [] = refl
split_ne c (x ∷ xs) = ground (arith, split_ne c xs)

pub split_free : (c : ℕ) (s : Bytes) → All (λ t. free_of c t ≡ true) (split c s)
unfolding split
split_free c [] = (refl, tt)
split_free c (x ∷ xs) = ground (arith, split_free c xs)

join-push : (c x : ℕ) (ts : List Bytes) → join c (push x ts) ≡ x ∷ join c ts
unfolding join push
join-push c x [] = refl
join-push c x (t ∷ []) = refl
join-push c x (t ∷ u ∷ ts) = refl

join-nil : (c : ℕ) (ts : List Bytes) → is_empty ts ≡ false → join c ([] ∷ ts) ≡ c ∷ join c ts
unfolding join
join-nil c [] h = cc
join-nil c (t ∷ ts) h = refl

pub join-split : (c : ℕ) (s : Bytes) → join c (split c s) ≡ s
unfolding split
join-split c [] = unfold join in refl
join-split c (x ∷ xs) =
    ground
      (arith, join-split c xs, split_ne c xs, join-nil c (split c xs), join-push c x (split c xs))

split-free : (c : ℕ) (t : Bytes) → free_of c t ≡ true → split c t ≡ t ∷ []
unfolding split push
split-free c [] h = refl
split-free c (x ∷ xs) h = ground (arith, split-free c xs)

split-append :
    (c : ℕ) (t rest : Bytes) → free_of c t ≡ true → split c (t ++ (c ∷ rest)) ≡ t ∷ split c rest
unfolding split push
split-append c [] rest h = ground arith
split-append c (x ∷ xs) rest h = ground (arith, split-append c xs rest)

split-join :
    (c : ℕ) (ts : List Bytes)
    → is_empty ts ≡ false
    → All (λ t. free_of c t ≡ true) ts
    → split c (join c ts) ≡ ts
split-join c [] ne a = cc
split-join c (t ∷ []) ne a = unfold join in split-free c t a.0
split-join c (t ∷ u ∷ ts) ne (f, a) = split-append_join ∙ ap (◌∷◌ t) (split-join c (u ∷ ts) refl a)
  where
    split-append_join : split c (join c (t ∷ u ∷ ts)) ≡ t ∷ split c (join c (u ∷ ts))
    split-append_join = unfold join in split-append c t (join c (u ∷ ts)) f

-- What is assumed of `split` determines it: it takes apart what was joined.
pub split-determined :
    (b : Boost) (c : ℕ) (ts : List Bytes)
    → is_empty ts ≡ false
    → All (λ t. free_of c t ≡ true) ts
    → b.split c (join c ts) ≡ ts
split-determined b c ts ne a =
    sym
      (split-join c (b.split c (join c ts)) (b.split_ne c (join c ts)) (b.split_free c (join c ts)))
    ∙ ap (split c) (b.join-split c (join c ts))
    ∙ split-join c ts ne a

-- Decimal digits; the fuel is above the number.
pub decimal : ℕ → ℕ → Bytes
decimal zero n = []
decimal (suc f) n =
    let front = decimal f (n / 10) in
    if ltb n 10 then (48 + n) ∷ [] else front ++ (48 + n % 10) ∷ []

digits_value-concat :
    (acc : ℕ) (ds : Bytes) (d : ℕ)
    → all is_dec ds ≡ true
    → d < 10
    → digits_value acc (ds ++ (48 + d) ∷ []) ≡ digits_value acc ds * 10 + d
unfolding digits_value is_dec
digits_value-concat acc [] d h k = ground arith
digits_value-concat acc (x ∷ ds) d h k =
    ground (arith, digits_value-concat (acc * 10 + (x - 48)) ds d)

pub decimal_dec : (f n : ℕ) → all is_dec (decimal f n) ≡ true
unfolding decimal is_dec
decimal_dec zero n = refl
decimal_dec (suc f) n =
    ground
      (arith, decimal_dec f (n / 10), all-append is_dec (decimal f (n / 10)) ((48 + n % 10) ∷ []))

pub decimal_value : (f n : ℕ) → n < f → digits_value 0 (decimal f n) ≡ n
unfolding decimal digits_value is_dec
decimal_value zero n h = absurd (omega arith)
decimal_value (suc f) n h = ground (
  arith,
  decimal_value f (n / 10),
  digits_value-concat 0 (decimal f (n / 10)) (n % 10),
  decimal_dec f (n / 10),
)

-- Replaces one character by nothing; other patterns are left alone.
erase : Bytes → Bytes → Bytes → Bytes
erase s (c ∷ []) [] = without c s
erase s p f = s

unfoldable pub boost : Boost
unfolding split decimal is_dec erase
boost = record {
  to_lower_copy = map to_lower;
  to_lower_copy_lem = λ s. refl;
  split = split;
  split_ne = split_ne;
  split_free = split_free;
  join-split = join-split;
  lexical_cast = λ n. decimal (suc n) n;
  lexical_cast_dec = λ n. decimal_dec (suc n) n;
  lexical_cast_value = λ n. decimal_value (suc n) n (omega arith);
  replace_all = erase;
  replace_all_lem = λ s c. unfold erase in refl;
}

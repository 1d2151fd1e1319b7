-- ===== src/Util/Base/Digits.antt =====
-- What `BaseToDec` (src/util.cpp) reads.
use as_proxyd.Common.{
  ℕ, suc, ◌+◌, ◌-◌, ◌*◌, ◌/◌, ◌^◌, ◌≤◌, ◌<◌, ◌≡◌, refl, ◌∙◌, ap, arith, Bool, true, false, not,
  ◌&&◌, ◌||◌, List, [], ◌∷◌, map, Option, some, if◌then◌else◌, ltb, ◌==◌, Bytes, length,
  until_nul-all, all, all_below, all_below_sound,
}
use as_proxyd.Util.{get_index}
use as_proxyd.Util.Base.{symbols, dec_from, base_to_dec_of, base_to_dec}
use native.Mathlib.Nat.{mul-div_cancel, pow-suc}

-- The symbol of a digit: `0` to `9`, then `A` to `Z`.
abbrev pub digit : ℕ → ℕ
digit d = if ltb d 10 then b'0' + d else b'A' + (d - 10)

-- The number that digits stand for.
unfoldable pub value_of : ℕ → List ℕ → ℕ
value_of base [] = 0
value_of base (d ∷ ds) = d * base ^ length ds + value_of base ds

-- Digits of the base, but for the one of the letter O.
abbrev pub is_place_digit : ℕ → ℕ → Bool
is_place_digit base d = ltb d base && not (d == 24)

digit_table :
    all_below 36 (λ d. (d == 24) || (get_index symbols (digit d) == d && not (digit d == 0))) ≡ true
unfolding all_below get_index
digit_table = refl

get_index-digit :
    (base d : ℕ)
    → base ≤ 36
    → is_place_digit base d ≡ true
    → (get_index symbols (digit d) ≡ d) × ((digit d == 0) ≡ false)
get_index-digit base d b h = ground (
  arith,
  all_below_sound 36 (λ e. (e == 24) || (get_index symbols (digit e) == e && not (digit e == 0))) d
      digit_table,
)

no_nul-digits :
    (base : ℕ) (ds : List ℕ)
    → base ≤ 36
    → all (is_place_digit base) ds ≡ true
    → all (λ c. not (c == 0)) (map digit ds) ≡ true
no_nul-digits base [] b h = refl
no_nul-digits base (d ∷ ds) b h = ground (arith, get_index-digit base d b, no_nul-digits base ds b)

dec_from-digit :
    (base d total place : ℕ) (cs : Bytes)
    → base ≤ 36
    → is_place_digit base d ≡ true
    → total + d * place < 2 ^ 31
    → dec_from base place total (digit d ∷ cs) ≡ dec_from base (place / base) (total + d * place) cs
unfolding dec_from
dec_from-digit base d total place cs b h s =
    let q : ltb (total + d * place) (2 ^ 31) ≡ true = ground arith in
    rw (get_index-digit base d b h).0 (rw q refl)

dec_from-digits :
    (base d : ℕ) (ds : List ℕ) (total : ℕ)
    → 2 ≤ base
    → base ≤ 36
    → all (is_place_digit base) (d ∷ ds) ≡ true
    → total + value_of base (d ∷ ds) < 2 ^ 31
    → dec_from base (base ^ length ds) total (map digit (d ∷ ds))
      ≡ some (total + value_of base (d ∷ ds))
unfolding dec_from value_of
dec_from-digits base d [] total a b h s =
    let hd : is_place_digit base d ≡ true = ground (arith, h) in
    dec_from-digit base d total (base ^ 0) [] b hd (omega (arith, s)) ∙ ap some (omega arith)
dec_from-digits base d (e ∷ ds) total a b h s =
    let hd : is_place_digit base d ≡ true = ground (arith, h) in
    let ht : all (is_place_digit base) (e ∷ ds) ≡ true = ground (arith, h) in
    let p : ℕ = d * base ^ suc (length ds) in
    let q : base ^ suc (length ds) / base ≡ base ^ length ds =
      ap (λ x. x / base) (pow-suc base (length ds))
      ∙ mul-div_cancel (base ^ length ds) (omega arith) in
    dec_from-digit base d total (base ^ suc (length ds)) (map digit (e ∷ ds)) b hd
      (omega (arith, s))
    ∙ ap (λ x. dec_from base x (total + p) (map digit (e ∷ ds))) q
    ∙ dec_from-digits base e ds (total + p) a b ht (omega (arith, s))
    ∙ ap some (omega arith)

length-map : (ds : List ℕ) → length (map digit ds) ≡ length ds
length-map [] = refl
length-map (d ∷ ds) = ap suc (length-map ds)

-- A text is spelled with the digits of a base from 2 to 36, of which none is the one of the letter O,
-- which the alphabet has as a small letter. If its number and its highest place fit an `int`, and `pow`
-- is exact there, then `BaseToDec` gives that number.
pub base_to_dec-digits :
    (pow : ℕ → ℕ → Option ℕ) (base d : ℕ) (ds : List ℕ)
    → 2 ≤ base
    → base ≤ 36
    → all (is_place_digit base) (d ∷ ds) ≡ true
    → value_of base (d ∷ ds) < 2 ^ 31
    → pow base (length ds) ≡ some (base ^ length ds)
    → base_to_dec pow (map digit (d ∷ ds)) base ≡ some (value_of base (d ∷ ds))
unfolding base_to_dec
base_to_dec-digits pow base d ds a b h s p =
    let low : (ltb base 2 || ltb 36 base) ≡ false = ground arith in
    let n : length (map digit (d ∷ ds)) - 1 ≡ length ds = omega (arith, length-map ds) in
    ap (λ s. base_to_dec_of pow s base)
      (until_nul-all (map digit (d ∷ ds)) (no_nul-digits base (d ∷ ds) b h))
    ∙ rw (low, base_to_dec_of)
        (rw n (rw p (dec_from-digits base d ds 0 a b h (omega arith) ∙ ap some (omega arith))))

-- ===== src/Base64/Shape.antt =====
-- The form of the output of `base64Encode` (src/wp_base64.cpp).
use as_proxyd.Common.{
  ℕ, ◌+◌, ◌*◌, ◌/◌, ◌<◌, ◌≡◌, refl, arith, Bool, true, [], ◌∷◌, length, all, ◌||◌, ◌==◌, Bytes,
}
use as_proxyd.Base64.{symbol, is_base64, base64_encode, sextet_0, sextet_1, sextet_2, sextet_3}
use as_proxyd.Base64.RoundTrip.{IsBytes, sextet_0-lt, sextet_1-lt, sextet_2-lt, sextet_3-lt}
use as_proxyd.Base64.Symbols.{symbol_facts}

-- A symbol of the alphabet, or the padding.
abbrev pub is_output : ℕ → Bool
is_output c = is_base64 c || c == b'='

symbol-is_output : (i : ℕ) → i < 64 → is_output (symbol i) ≡ true
symbol-is_output i h = ground (arith, symbol_facts i h)

length-base64_encode : (xs : Bytes) → length (base64_encode xs) ≡ (length xs + 2) / 3 * 4
unfolding base64_encode
length-base64_encode [] = omega arith
length-base64_encode (a ∷ []) = omega arith
length-base64_encode (a ∷ b ∷ []) = omega arith
length-base64_encode (a ∷ b ∷ c ∷ xs) = omega (arith, length-base64_encode xs)

base64_encode-is_output : (xs : Bytes) → IsBytes xs → all is_output (base64_encode xs) ≡ true
unfolding base64_encode
base64_encode-is_output [] h = refl
base64_encode-is_output (a ∷ []) h = ground (
  arith,
  symbol-is_output (sextet_0 a),
  symbol-is_output (sextet_1 a 0),
  sextet_0-lt a 0 0,
  sextet_1-lt a 0 0,
)
base64_encode-is_output (a ∷ b ∷ []) h = ground (
  arith,
  symbol-is_output (sextet_0 a),
  symbol-is_output (sextet_1 a b),
  symbol-is_output (sextet_2 b 0),
  sextet_0-lt a b 0,
  sextet_1-lt a b 0,
  sextet_2-lt a b 0,
)
base64_encode-is_output (a ∷ b ∷ c ∷ xs) h = ground (
  arith,
  symbol-is_output (sextet_0 a),
  symbol-is_output (sextet_1 a b),
  symbol-is_output (sextet_2 b c),
  symbol-is_output (sextet_3 c),
  sextet_0-lt a b c,
  sextet_1-lt a b c,
  sextet_2-lt a b c,
  sextet_3-lt a b c,
  base64_encode-is_output xs,
)

-- Every three bytes, and the last one or two, become four symbols, and the output holds symbols of the
-- alphabet and padding, and nothing else.
pub base64_encode-IsShaped :
    (xs : Bytes)
    → IsBytes xs
    → (length (base64_encode xs) ≡ (length xs + 2) / 3 * 4)
      × (all is_output (base64_encode xs) ≡ true)
base64_encode-IsShaped xs h = (length-base64_encode xs, base64_encode-is_output xs h)

-- ===== src/Url.antt =====
-- `request_handler::url_decode` (src/request_handler.cpp), which src/util.cpp has once more.
pub mod Escapes
mod Tests
use as_proxyd.Common.{
  ℕ, ◌+◌, ◌-◌, ◌*◌, ◌%◌, Bool, true, false, ◌&&◌, ◌||◌, List, [], ◌∷◌, ◌++◌, Option, none, some,
  if◌then◌else◌, ◌==◌, within, Bytes, is_space,
}

-- The value of a hexadecimal digit.
unfoldable pub hex_digit : ℕ → Option ℕ
hex_digit c =
    if within b'0' b'9' c
    then some (c - b'0')
    else if within b'a' b'f' c
    then some (c - b'a' + 10)
    else if within b'A' b'F' c
    then some (c - b'A' + 10)
    else none

-- The negative of a digit, as a `char`.
abbrev negated : ℕ → ℕ
negated v = (256 - v) % 256

-- `is >> std::hex >> value` on the two characters, and `value` as a `char`; `none` is failure. The
-- stream skips white space, takes a sign, and stops behind the first character that is no digit; of
-- a prefix `0x` there would have to be digits.
unfoldable pub read_hex : ℕ → ℕ → Option ℕ
unfolding hex_digit
read_hex a b =
    if is_space a
    then (if is_space b then none else hex_digit b)
    else if a == b'-'
    then elim (hex_digit b) [ none ↦ none | some v ↦ some (negated v) ]
    else if a == b'+'
    then hex_digit b
    else if a == b'0' && (b == b'x' || b == b'X')
    then none
    else elim (hex_digit a) [
      | none ↦ none
      | some v ↦ elim (hex_digit b) [ none ↦ some v | some w ↦ some (v * 16 + w) ]
    ]

-- A character that is no `%`.
unfoldable pub plain : ℕ → ℕ
plain c = if c == b'+' then b' ' else c

-- The loop: `out` so far, and the input from `i` on.
unfoldable pub decode_from : Bytes → Bytes → Bool × Bytes
unfolding plain
decode_from out [] = (true, out)
decode_from out (c ∷ []) = if c == b'%' then (false, out) else (true, out ++ plain c ∷ [])
decode_from out (c ∷ a ∷ []) =
    if c == b'%' then (false, out) else decode_from (out ++ plain c ∷ []) (a ∷ [])
decode_from out (c ∷ a ∷ b ∷ rest) = elim (c == b'%') [
  | true ↦ elim (read_hex a b) [ none ↦ (false, out) | some v ↦ decode_from (out ++ v ∷ []) rest ]
  | false ↦ decode_from (out ++ plain c ∷ []) (a ∷ b ∷ rest)
]

-- The result, and what has been put into `out`.
unfoldable pub url_decode : Bytes → Bool × Bytes
unfolding decode_from
url_decode s = decode_from [] s

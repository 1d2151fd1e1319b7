-- ===== src/Parser/Chars.antt =====
-- The character classes of src/request_parser.cpp, over the `int` that a `char` becomes.
use as_proxyd.Common.{
  ℕ, Bool, false, not, ◌||◌, [], ◌∷◌, ℤ, pos, negsuc, leb, within, ◌==◌, char_to_int, Bytes, codes,
}

unfoldable pub is_char : ℤ → Bool
is_char (pos c) = leb c 127
is_char (negsuc c) = false

unfoldable pub is_ctl : ℤ → Bool
is_ctl (pos c) = leb c 31 || c == 127
is_ctl (negsuc c) = false

abbrev tspecials : Bytes
tspecials = codes "()<>@,;:\\\"/[]?={} \t"

one_of : ℕ → Bytes → Bool
one_of c [] = false
one_of c (x ∷ xs) = c == x || one_of c xs

unfoldable pub is_tspecial : ℤ → Bool
unfolding one_of
is_tspecial (pos c) = one_of c tspecials
is_tspecial (negsuc c) = false

unfoldable pub is_digit : ℤ → Bool
is_digit (pos c) = within b'0' b'9' c
is_digit (negsuc c) = false

-- `!is_char(input) || is_ctl(input) || is_tspecial(input)`, the test of three states.
unfoldable pub not_token : ℕ → Bool
unfolding is_char is_ctl is_tspecial
not_token b = not (is_char (char_to_int b)) || is_ctl (char_to_int b) || is_tspecial (char_to_int b)

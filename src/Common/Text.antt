-- ===== src/Common/Text.antt =====
-- `std::string` as the list of its bytes, with what the code uses of <string> and <ctype.h>.
use Prim.Native.Char.{code}
use Prim.Native.Nat.{ℕ, ◌+◌}
use Prim.Native.String.{String}
use mathlib.Core.Bool.{Bool, true, false, not, ◌&&◌, ◌||◌}
use mathlib.Core.List.{List, [], ◌∷◌, ◌++◌}
use mathlib.Core.Option.{Option, none, some}
use mathlib.Core.Logic.{◌↔◌}
use mathlib.Core.Path.{◌≡◌, refl}
use native.Mathlib.Omega.{arith}
use as_proxyd.Common.Lists.{all}
use as_proxyd.Common.Tests.{leb, ◌==◌, if◌then◌else◌}

abbrev pub Bytes : Type 0
Bytes = List ℕ

-- The bytes of an ASCII text.
abbrev pub codes : String → Bytes
codes String.[] = []
codes (String.◌∷◌ c s) = code c ∷ codes s

-- `operator==` of `std::string`.
unfoldable pub bytes_eq : Bytes → Bytes → Bool
bytes_eq [] [] = true
bytes_eq (x ∷ xs) (y ∷ ys) = x == y && bytes_eq xs ys
bytes_eq _ _ = false

pub bytes_eq_iff : (xs ys : Bytes) → (bytes_eq xs ys ≡ true) ↔ (xs ≡ ys)
unfolding bytes_eq
bytes_eq_iff (x ∷ xs) (y ∷ ys) = ground (arith, bytes_eq_iff xs ys)
bytes_eq_iff _ _ = ground arith

abbrev pub within : ℕ → ℕ → ℕ → Bool
within lo hi c = leb lo c && leb c hi

-- `tolower` in the C locale.
unfoldable pub to_lower : ℕ → ℕ
to_lower c = if within b'A' b'Z' c then c + 32 else c

pub to_lower_idem : (c : ℕ) → to_lower (to_lower c) ≡ to_lower c
unfolding to_lower
to_lower_idem c = ground arith

-- `isspace` in the C locale.
unfoldable pub is_space : ℕ → Bool
is_space c = c == 32 || within 9 13 c

-- `isdigit`.
unfoldable pub is_dec : ℕ → Bool
is_dec c = within b'0' b'9' c

-- The text of a C string: what stands in front of the first NUL.
unfoldable pub until_nul : Bytes → Bytes
until_nul [] = []
until_nul (c ∷ cs) = if c == 0 then [] else c ∷ until_nul cs

-- A buffer read as a C string; without a NUL in it the code would read behind it.
unfoldable pub c_string : Bytes → Option Bytes
c_string [] = none
c_string (c ∷ cs) =
    if c == 0 then some [] else elim (c_string cs) [ none ↦ none | some t ↦ some (c ∷ t) ]

pub c_string-append :
    (t rest : Bytes) → all (λ c. not (c == 0)) t ≡ true → c_string (t ++ (0 ∷ rest)) ≡ some t
unfolding c_string
c_string-append [] rest h = refl
c_string-append (c ∷ cs) rest h = ground (arith, c_string-append cs rest)

pub until_nul-all : (t : Bytes) → all (λ c. not (c == 0)) t ≡ true → until_nul t ≡ t
unfolding until_nul
until_nul-all [] h = refl
until_nul-all (c ∷ cs) h = ground (arith, until_nul-all cs)

pub until_nul-append :
    (t rest : Bytes) → all (λ c. not (c == 0)) t ≡ true → until_nul (t ++ (0 ∷ rest)) ≡ t
unfolding until_nul
until_nul-append [] rest h = refl
until_nul-append (c ∷ cs) rest h = ground (arith, until_nul-append cs rest)

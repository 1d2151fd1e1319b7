-- ===== src/Boost.antt =====
-- What the code uses of Boost's string algorithms and `lexical_cast`, which are not in the
-- repository: operations, with what their documentation says of them.
pub mod Model
use as_proxyd.Common.{
  ℕ, Bool, true, false, not, List, [], ◌∷◌, ◌++◌, map, ◌≡◌, ◌==◌, if◌then◌else◌, all, All, Bytes,
  to_lower, is_dec,
}
use as_proxyd.Parser.{is_empty, digits_value}

-- The pieces with the separator between them.
unfoldable pub join : ℕ → List Bytes → Bytes
join c [] = []
join c (t ∷ []) = t
join c (t ∷ u ∷ ts) = t ++ (c ∷ join c (u ∷ ts))

-- No byte of the text is the separator.
abbrev pub free_of : ℕ → Bytes → Bool
free_of c = all (λ x. not (x == c))

-- The text without a byte.
unfoldable pub without : ℕ → Bytes → Bytes
without c [] = []
without c (x ∷ xs) = let rest = without c xs in if x == c then rest else x ∷ rest

pub record Boost : Type 0 where
  -- `boost::to_lower_copy` and `boost::algorithm::to_lower`, in the C locale.
  pub to_lower_copy : Bytes → Bytes
  pub to_lower_copy_lem : (s : Bytes) → to_lower_copy s ≡ map to_lower s
  -- `boost::split` with `boost::is_any_of` of one character, without token compression.
  pub split : ℕ → Bytes → List Bytes
  pub split_ne : (c : ℕ) (s : Bytes) → is_empty (split c s) ≡ false
  pub split_free : (c : ℕ) (s : Bytes) → All (λ t. free_of c t ≡ true) (split c s)
  pub join-split : (c : ℕ) (s : Bytes) → join c (split c s) ≡ s
  -- `boost::lexical_cast<std::string>` of an unsigned number.
  pub lexical_cast : ℕ → Bytes
  pub lexical_cast_dec : (n : ℕ) → all is_dec (lexical_cast n) ≡ true
  pub lexical_cast_value : (n : ℕ) → digits_value 0 (lexical_cast n) ≡ n
  -- `boost::replace_all` of one character by nothing.
  pub replace_all : Bytes → Bytes → Bytes → Bytes
  pub replace_all_lem : (s : Bytes) (c : ℕ) → replace_all s (c ∷ []) [] ≡ without c s

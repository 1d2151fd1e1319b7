-- ===== src/Base64/Symbols.antt =====
-- The alphabet of src/wp_base64.cpp: finding a symbol undoes the table, in both decoders.
use as_proxyd.Common.{
  ℕ, ◌<◌, ◌≡◌, refl, arith, Bool, true, false, not, ◌&&◌, none, some, ◌==◌, all_below,
  all_below_sound,
}
use as_proxyd.Base64.{symbol, find, is_base64, stops, dec_table}

is_some : ℕ → ℕ → Bool
is_some c i = elim (dec_table c) [ none ↦ false | some n ↦ n == i ]

symbol_table :
    all_below 64 (λ i. (find (symbol i) == i) && (not (stops (symbol i)) && is_some (symbol i) i))
    ≡ true
unfolding all_below symbol find is_base64 dec_table is_some
symbol_table = refl

module _ (i : ℕ) (h : i < 64) where
  pub symbol_facts :
      (find (symbol i) ≡ i) × (stops (symbol i) ≡ false) × (dec_table (symbol i) ≡ some i)
  unfolding is_some
  symbol_facts = ground (
    arith,
    all_below_sound 64
        (λ j. (find (symbol j) == j) && (not (stops (symbol j)) && is_some (symbol j) j)) i
        symbol_table,
  )

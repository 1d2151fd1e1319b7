-- ===== src/Base64/Bits.antt =====
-- The masks and shifts of src/wp_base64.cpp as divisions, and that they undo one another.
use as_proxyd.Common.{
  ℕ, ◌+◌, ◌*◌, ◌/◌, ◌%◌, ◌<◌, ◌≡◌, refl, arith, true, bit_and, ◌==◌, ==_iff, all_below,
  all_below_sound,
}
use as_proxyd.Base64.{sextet_0, sextet_1, sextet_2, sextet_3, byte_0, byte_1, byte_2}

-- Two functions that agree on every byte.
byte_table : (f g : ℕ → ℕ) (x : ℕ) → all_below 256 (λ c. f c == g c) ≡ true → x < 256 → f x ≡ g x
byte_table f g x t h = (==_iff (f x) (g x)).0 (all_below_sound 256 (λ c. f c == g c) x t h)

module _ (x : ℕ) (h : x < 256) where
  and_fc : bit_and x 0xfc / 4 ≡ x / 4
  unfolding all_below
  and_fc = byte_table (λ c. bit_and c 0xfc / 4) (λ c. c / 4) x refl h

  and_03 : bit_and x 0x03 ≡ x % 4
  unfolding all_below
  and_03 = byte_table (λ c. bit_and c 0x03) (λ c. c % 4) x refl h

  and_f0 : bit_and x 0xf0 / 16 ≡ x / 16
  unfolding all_below
  and_f0 = byte_table (λ c. bit_and c 0xf0 / 16) (λ c. c / 16) x refl h

  and_0f : bit_and x 0x0f ≡ x % 16
  unfolding all_below
  and_0f = byte_table (λ c. bit_and c 0x0f) (λ c. c % 16) x refl h

  and_c0 : bit_and x 0xc0 / 64 ≡ x / 64
  unfolding all_below
  and_c0 = byte_table (λ c. bit_and c 0xc0 / 64) (λ c. c / 64) x refl h

  and_3f : bit_and x 0x3f ≡ x % 64
  unfolding all_below
  and_3f = byte_table (λ c. bit_and c 0x3f) (λ c. c % 64) x refl h

  and_30 : bit_and x 0x30 / 16 ≡ x / 16 % 4
  unfolding all_below
  and_30 = byte_table (λ c. bit_and c 0x30 / 16) (λ c. c / 16 % 4) x refl h

  and_3c : bit_and x 0x3c / 4 ≡ x / 4 % 16
  unfolding all_below
  and_3c = byte_table (λ c. bit_and c 0x3c / 4) (λ c. c / 4 % 16) x refl h

module _ (a b : ℕ) (ha : a < 256) (hb : b < 256) where
  pub sextet_0_lem : sextet_0 a ≡ a / 4
  unfolding sextet_0
  sextet_0_lem = and_fc a ha

  pub sextet_1_lem : sextet_1 a b ≡ a % 4 * 16 + b / 16
  unfolding sextet_1
  sextet_1_lem = omega (arith, and_03 a ha, and_f0 b hb)

  pub sextet_2_lem : sextet_2 a b ≡ a % 16 * 4 + b / 64
  unfolding sextet_2
  sextet_2_lem = omega (arith, and_0f a ha, and_c0 b hb)

  pub sextet_3_lem : sextet_3 b ≡ b % 64
  unfolding sextet_3
  sextet_3_lem = and_3f b hb

  pub byte_0_lem : byte_0 a b ≡ (a * 4 + b / 16 % 4) % 256
  unfolding byte_0
  byte_0_lem = omega (arith, and_30 b hb)

  pub byte_1_lem : byte_1 a b ≡ a % 16 * 16 + b / 4 % 16
  unfolding byte_1
  byte_1_lem = omega (arith, and_0f a ha, and_3c b hb)

  pub byte_2_lem : byte_2 a b ≡ (a % 4 * 64 + b) % 256
  unfolding byte_2
  byte_2_lem = omega (arith, and_03 a ha)

-- ===== src/Base64/RoundTrip.antt =====
-- `base64Decode` undoes `base64Encode` (src/wp_base64.cpp).
use as_proxyd.Common.{ℕ, ◌<◌, ◌≡◌, refl, ◌∙◌, ap, arith, false, [], ◌∷◌, ◌++◌, All, Bytes}
use as_proxyd.Base64.{
  sextet_0, sextet_1, sextet_2, sextet_3, byte_0, byte_1, byte_2, quad, triple, stops, encode_loop,
  encode_rest, decode_loop, base64_encode, base64_decode,
}
use as_proxyd.Base64.Bits.{
  sextet_0_lem, sextet_1_lem, sextet_2_lem, sextet_3_lem, byte_0_lem, byte_1_lem, byte_2_lem,
}
use as_proxyd.Base64.Symbols.{symbol_facts}

-- Every element is the value of an `unsigned char`.
abbrev pub IsBytes : Bytes → Type 0
IsBytes = All (λ c. c < 256)

-- A full group of four symbols is decoded by itself.
decode_loop-group :
    (w x y z : ℕ) (rest : Bytes)
    → stops w ≡ false
    → stops x ≡ false
    → stops y ≡ false
    → stops z ≡ false
    → decode_loop [] (w ∷ x ∷ y ∷ z ∷ rest) ≡ triple w x y z ++ decode_loop [] rest
unfolding decode_loop
decode_loop-group w x y z rest hw hx hy hz = rw (hw, hx, hy, hz)

module _ (a b c : ℕ) (ha : a < 256) (hb : b < 256) (hc : c < 256) where
  pub sextet_0-lt : sextet_0 a < 64
  sextet_0-lt = omega (arith, sextet_0_lem a a ha ha)

  pub sextet_1-lt : sextet_1 a b < 64
  sextet_1-lt = omega (arith, sextet_1_lem a b ha hb)

  pub sextet_2-lt : sextet_2 b c < 64
  sextet_2-lt = omega (arith, sextet_2_lem b c hb hc)

  pub sextet_3-lt : sextet_3 c < 64
  sextet_3-lt = omega (arith, sextet_3_lem c c hc hc)

  byte_0-sextets : byte_0 (sextet_0 a) (sextet_1 a b) ≡ a
  byte_0-sextets = omega (
    arith,
    byte_0_lem (sextet_0 a) (sextet_1 a b) (omega (arith, sextet_0-lt))
        (omega (arith, sextet_1-lt)),
    sextet_0_lem a a ha ha,
    sextet_1_lem a b ha hb,
  )

  byte_1-sextets : byte_1 (sextet_1 a b) (sextet_2 b c) ≡ b
  byte_1-sextets = omega (
    arith,
    byte_1_lem (sextet_1 a b) (sextet_2 b c) (omega (arith, sextet_1-lt))
        (omega (arith, sextet_2-lt)),
    sextet_1_lem a b ha hb,
    sextet_2_lem b c hb hc,
  )

  byte_2-sextets : byte_2 (sextet_2 b c) (sextet_3 c) ≡ c
  byte_2-sextets = omega (
    arith,
    byte_2_lem (sextet_2 b c) (sextet_3 c) (omega (arith, sextet_2-lt))
        (omega (arith, sextet_3-lt)),
    sextet_2_lem b c hb hc,
    sextet_3_lem c c hc hc,
  )

  decode_loop-quad :
      (rest : Bytes) → decode_loop [] (quad a b c ++ rest) ≡ a ∷ b ∷ c ∷ decode_loop [] rest
  decode_loop-quad rest =
      let (f0, s0, _) = symbol_facts (sextet_0 a) sextet_0-lt in
      let (f1, s1, _) = symbol_facts (sextet_1 a b) sextet_1-lt in
      let (f2, s2, _) = symbol_facts (sextet_2 b c) sextet_2-lt in
      let (f3, s3, _) = symbol_facts (sextet_3 c) sextet_3-lt in
      decode_loop-group _ _ _ _ rest s0 s1 s2 s3
      ∙ rw (f0, f1, f2, f3, byte_0-sextets, byte_1-sextets, byte_2-sextets)

-- The padded group of one byte, and of two.
decode_loop-one : (a : ℕ) → a < 256 → decode_loop [] (encode_rest (a ∷ [])) ≡ a ∷ []
unfolding decode_loop encode_rest
decode_loop-one a ha =
    let (f0, s0, _) =
      symbol_facts (sextet_0 a) (sextet_0-lt a 0 0 ha (omega arith) (omega arith)) in
    let (f1, s1, _) =
      symbol_facts (sextet_1 a 0) (sextet_1-lt a 0 0 ha (omega arith) (omega arith)) in
    rw (s0, s1, f0, f1, byte_0-sextets a 0 0 ha (omega arith) (omega arith))

decode_loop-two :
    (a b : ℕ) → a < 256 → b < 256 → decode_loop [] (encode_rest (a ∷ b ∷ [])) ≡ a ∷ b ∷ []
unfolding decode_loop encode_rest
decode_loop-two a b ha hb =
    let (f0, s0, _) = symbol_facts (sextet_0 a) (sextet_0-lt a b 0 ha hb (omega arith)) in
    let (f1, s1, _) = symbol_facts (sextet_1 a b) (sextet_1-lt a b 0 ha hb (omega arith)) in
    let (f2, s2, _) = symbol_facts (sextet_2 b 0) (sextet_2-lt a b 0 ha hb (omega arith)) in
    rw (
      s0,
      s1,
      s2,
      f0,
      f1,
      f2,
      byte_0-sextets a b 0 ha hb (omega arith),
      byte_1-sextets a b 0 ha hb (omega arith),
    )

-- Decoding what was encoded gives the bytes back, whatever their number: the padding and the
-- zeros that fill the last group add nothing.
pub decode-encode : (xs : Bytes) → IsBytes xs → base64_decode (base64_encode xs) ≡ xs
unfolding base64_decode base64_encode
decode-encode [] h = refl
decode-encode (a ∷ []) h = decode_loop-one a h.0
decode-encode (a ∷ b ∷ []) h = decode_loop-two a b h.0 h.1.0
decode-encode (a ∷ b ∷ c ∷ xs) (ha, (hb, (hc, h))) =
    decode_loop-quad a b c ha hb hc (encode_loop [] xs)
    ∙ ap (λ ys. a ∷ b ∷ c ∷ ys) (decode-encode xs h)

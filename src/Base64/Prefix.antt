-- ===== src/Base64/Prefix.antt =====
-- `base64DecodeToData` (src/wp_base64.cpp) on what `base64Encode` made: the bytes, as far as the
-- destination has room for them.
mod Groups
use as_proxyd.Common.{
  ℕ, zero, suc, ◌+◌, ◌*◌, ◌/◌, ◌%◌, ◌^◌, ◌≤◌, ◌<◌, ◌≡◌, refl, ◌∙◌, sym, ap, arith, Bool, true,
  false, [], ◌∷◌, ◌++◌, length, length-append, Bytes, take, leb, ltb, none, Bool-cases, inl, inr,
  bit_and, ◌==◌, or_zero_left, bit_or-disjoint, append_assoc, append-nil, all_below,
  all_below_sound, ==_iff,
}
use as_proxyd.Base64.{
  symbol, sextet_0, sextet_1, sextet_2, sextet_3, quad, dec_table, write, data_loop, Progress,
  gathered, feed, base64_decode_to_data, base64_encode, encode_rest, encode_loop,
}
use as_proxyd.Base64.Bits.{sextet_0_lem, sextet_1_lem, sextet_2_lem, sextet_3_lem}
use as_proxyd.Base64.RoundTrip.{IsBytes, sextet_0-lt, sextet_1-lt, sextet_2-lt, sextet_3-lt}
use as_proxyd.Base64.Symbols.{symbol_facts}
use as_proxyd.Base64.ToData.{data_loop-return, data_loop-feed, data_loop-skip}
use Groups.{take_all, take-append_left, two_symbols, three_symbols, quad_room, quad_full}

dec_table_pad : dec_table b'=' ≡ none
unfolding dec_table
dec_table_pad = refl

data_rest_one :
    (room : ℕ) (out : Bytes) (x a : ℕ)
    → length out < room
    → (x / 2 ^ 16) % 256 ≡ a
    → data_loop room (gathered out x 12) [] ≡ take room (out ++ a ∷ [])
unfolding data_loop
data_rest_one room out x a h e =
    rw e (ground (arith, length-append out (a ∷ []), take_all room (out ++ a ∷ [])))

data_rest_two :
    (room : ℕ) (out : Bytes) (x a b : ℕ)
    → length out < room
    → (x / 2 ^ 16) % 256 ≡ a
    → (x / 2 ^ 8) % 256 ≡ b
    → data_loop room (gathered out x 18) [] ≡ take room (out ++ a ∷ b ∷ [])
unfolding data_loop
data_rest_two room out x a b h ea eb =
    rw (ea, eb)
      (ground (
        arith,
        length-append out (a ∷ []),
        length-append (out ++ a ∷ []) (b ∷ []),
        append_assoc out (a ∷ []) (b ∷ []),
        take_all room (out ++ a ∷ []),
        take_all room (out ++ a ∷ b ∷ []),
        take-append_left room (out ++ a ∷ []) (b ∷ []),
      ))

-- The padded group of one byte, and of two.
rest_one :
    (room : ℕ) (out : Bytes) (a : ℕ)
    → a < 256
    → length out < room
    → data_loop room (gathered out 0 0) (encode_rest (a ∷ [])) ≡ take room (out ++ a ∷ [])
unfolding encode_rest
rest_one room out a ha h =
    two_symbols room out a 0 ha (omega arith) _
    ∙ data_loop-skip room _ b'=' _ dec_table_pad
    ∙ data_loop-skip room _ b'=' [] dec_table_pad
    ∙ data_rest_one room out _ a h
        (omega (arith, sextet_0_lem a a ha ha, sextet_1_lem a 0 ha (omega arith)))

rest_two :
    (room : ℕ) (out : Bytes) (a b : ℕ)
    → a < 256
    → b < 256
    → length out < room
    → data_loop room (gathered out 0 0) (encode_rest (a ∷ b ∷ [])) ≡ take room (out ++ a ∷ b ∷ [])
unfolding encode_rest
rest_two room out a b ha hb h =
    three_symbols room out a b 0 ha hb (omega arith) _
    ∙ data_loop-skip room _ b'=' [] dec_table_pad
    ∙ data_rest_two room out _ a b h (omega (arith, two_bytes)) (omega (arith, two_bytes))
  where
    two_bytes : (sextet_0 a * 64 + sextet_1 a b) * 64 + sextet_2 b 0 ≡ a * 2 ^ 10 + b * 2 ^ 2
    two_bytes =
        omega
          (arith, sextet_0_lem a a ha ha, sextet_1_lem a b ha hb, sextet_2_lem b 0 hb (omega arith))

data_loop-nil : (room : ℕ) (out : Bytes) → data_loop room (gathered out 0 0) [] ≡ out
unfolding data_loop
data_loop-nil room out = refl

data_loop-encode :
    (xs : Bytes) (room : ℕ) (out : Bytes)
    → IsBytes xs
    → length out < room
    → data_loop room (gathered out 0 0) (encode_loop [] xs) ≡ take room (out ++ xs)
unfolding encode_loop
data_loop-encode [] room out v h =
    rw append-nil (data_loop-nil room out ∙ sym (take_all room out (omega arith)))
data_loop-encode (a ∷ []) room out v h = rest_one room out a v.0 h
data_loop-encode (a ∷ b ∷ []) room out v h = rest_two room out a b v.0 v.1.0 h
data_loop-encode (a ∷ b ∷ c ∷ xs) room out (ha, (hb, (hc, v))) h =
    elim (Bool-cases (ltb (length out + 3) room)) [
      | inl e ↦
          quad_room room out a b c ha hb hc (encode_loop [] xs) (ground arith)
          ∙ data_loop-encode xs room (out ++ a ∷ b ∷ c ∷ []) v
              (ground (arith, length-append out (a ∷ b ∷ c ∷ [])))
          ∙ rw append_assoc
      | inr e ↦
          quad_full room out a b c ha hb hc (encode_loop [] xs) h (ground arith)
          ∙ sym (
              take-append_left room (out ++ a ∷ b ∷ c ∷ []) xs
                (ground (arith, length-append out (a ∷ b ∷ c ∷ []))))
          ∙ rw append_assoc
    ]

-- Whatever the size of the destination, it gets the encoded bytes from the first one on, until it
-- is full or they end.
pub decode_to_data-encode :
    (xs : Bytes) (room : ℕ)
    → IsBytes xs
    → base64_decode_to_data (base64_encode xs) room ≡ take room xs
unfolding base64_decode_to_data base64_encode
decode_to_data-encode xs zero v = refl
decode_to_data-encode xs (suc n) v = ground (arith, data_loop-encode xs (suc n) [] v)

-- ===== src/Base64/Tests.antt =====
-- Runs of the base64 routines, and their theorems at concrete inputs.
use as_proxyd.Common.{◌≤◌, ◌≡◌, refl, true, Bytes, all, codes, length, arith}
use as_proxyd.Base64.{
  base64_encode, base64_decode, base64_decode_to_data, symbol, find, is_base64, sextet_0, sextet_1,
  sextet_2, sextet_3, byte_0, byte_1, byte_2,
}
use as_proxyd.Base64.Prefix.{decode_to_data-encode}
use as_proxyd.Base64.RoundTrip.{IsBytes, decode-encode}
use as_proxyd.Base64.Shape.{is_output, base64_encode-IsShaped}
use as_proxyd.Base64.ToData.{base64_decode_to_data_bounds}

abbrev sample : Bytes
sample = codes "{\"gender\": 1}?"

sample_encoded : base64_encode sample ≡ codes "eyJnZW5kZXIiOiAxfT8="
unfolding base64_encode symbol sextet_0 sextet_1 sextet_2 sextet_3
sample_encoded = refl

-- Decoding stops at the first byte outside the alphabet.
decode_stops : base64_decode (codes "eyJn ZW5k") ≡ codes "{\"g"
unfolding base64_decode is_base64 find byte_0 byte_1 byte_2
decode_stops = refl

-- The table-driven decoder skips such bytes.
to_data_skips : base64_decode_to_data (codes "eyJn ZW5k") 5 ≡ codes "{\"gen"
unfolding base64_decode_to_data
to_data_skips = refl

sample-IsBytes : IsBytes sample
sample-IsBytes = omega arith

decode-encode_example : base64_decode (base64_encode sample) ≡ sample
decode-encode_example = decode-encode sample sample-IsBytes

decode_to_data_round : base64_decode_to_data (base64_encode sample) 4 ≡ codes "{\"ge"
decode_to_data_round = decode_to_data-encode sample 4 sample-IsBytes

base64_decode_to_data_bounds_example : length (base64_decode_to_data (codes "eyJn ZW5k") 5) ≤ 5
base64_decode_to_data_bounds_example = base64_decode_to_data_bounds (codes "eyJn ZW5k") 5

encoded_shape : (length (base64_encode sample) ≡ 20) × (all is_output (base64_encode sample) ≡ true)
encoded_shape = base64_encode-IsShaped sample sample-IsBytes

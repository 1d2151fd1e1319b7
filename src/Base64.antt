-- ===== src/Base64.antt =====
-- src/wp_base64.cpp and include/wp_base64.hpp: base64 to and from byte strings.
mod Bits
mod Symbols
pub mod RoundTrip
pub mod ToData
pub mod Prefix
pub mod Shape
mod Tests
use as_proxyd.Common.{
  ℕ, zero, suc, ◌+◌, ◌-◌, ◌*◌, ◌/◌, ◌%◌, ◌^◌, bit_and, bit_or, Bool, true, false, not, ◌&&◌, ◌||◌,
  List, [], ◌∷◌, ◌++◌, Option, none, some, leb, ltb, if◌then◌else◌, ◌==◌, within, take, length,
  Bytes, codes,
}

-- `kBase64String`.
abbrev pub k_base64_string : Bytes
k_base64_string = codes "ABCDEFGHIJKLMNOPQRSTUVWXYZabcdefghijklmnopqrstuvwxyz0123456789+/"

-- `IsBase64`, with `isalnum` of the C locale.
unfoldable pub is_base64 : ℕ → Bool
is_base64 c =
    within b'0' b'9' c || within b'A' b'Z' c || within b'a' b'z' c || (c == b'+' || c == b'/')

get_or : Bytes → ℕ → ℕ → ℕ
get_or [] i d = d
get_or (x ∷ xs) zero d = x
get_or (x ∷ xs) (suc i) d = get_or xs i d

-- `kBase64String[i]`; the string's end reads as NUL.
unfoldable pub symbol : ℕ → ℕ
unfolding get_or
symbol i = get_or k_base64_string i 0

find_from : ℕ → Bytes → ℕ → Option ℕ
find_from i [] c = none
find_from i (x ∷ xs) c = if x == c then some i else find_from (i + 1) xs c

-- `kBase64String.find(c)` stored in an `unsigned char`; the low byte of `npos` is 255.
unfoldable pub find : ℕ → ℕ
unfolding find_from
find c = elim (find_from 0 k_base64_string c) [ none ↦ 255 | some i ↦ i % 256 ]

-- `charArray4` from `characterArray3`.
unfoldable pub sextet_0 : ℕ → ℕ
sextet_0 a = bit_and a 0xfc / 4

unfoldable pub sextet_1 : ℕ → ℕ → ℕ
sextet_1 a b = (bit_and a 0x03 * 16 + bit_and b 0xf0 / 16) % 256

unfoldable pub sextet_2 : ℕ → ℕ → ℕ
sextet_2 b c = (bit_and b 0x0f * 4 + bit_and c 0xc0 / 64) % 256

unfoldable pub sextet_3 : ℕ → ℕ
sextet_3 c = bit_and c 0x3f

abbrev pub quad : ℕ → ℕ → ℕ → Bytes
quad a b c =
    symbol (sextet_0 a) ∷ symbol (sextet_1 a b) ∷ symbol (sextet_2 b c) ∷ symbol (sextet_3 c) ∷ []

-- The code behind the loop, `if (i)`: the missing bytes are 0, and `i + 1` symbols are kept.
unfoldable pub encode_rest : Bytes → Bytes
encode_rest [] = []
encode_rest (a ∷ []) = take 2 (quad a 0 0) ++ (b'=' ∷ b'=' ∷ [])
encode_rest (a ∷ b ∷ _) = take 3 (quad a b 0) ++ (b'=' ∷ [])

-- The loop; its first argument is the `i` bytes of `characterArray3` in use.
unfoldable pub encode_loop : Bytes → Bytes → Bytes
unfolding encode_rest
encode_loop pending [] = encode_rest pending
encode_loop [] (c ∷ cs) = encode_loop (c ∷ []) cs
encode_loop (a ∷ []) (c ∷ cs) = encode_loop (a ∷ c ∷ []) cs
encode_loop (a ∷ b ∷ _) (c ∷ cs) = quad a b c ++ encode_loop [] cs

unfoldable pub base64_encode : Bytes → Bytes
unfolding encode_loop
base64_encode cs = encode_loop [] cs

-- `charArray3` from `charArray4`.
unfoldable pub byte_0 : ℕ → ℕ → ℕ
byte_0 w x = (w * 4 + bit_and x 0x30 / 16) % 256

unfoldable pub byte_1 : ℕ → ℕ → ℕ
byte_1 x y = (bit_and x 0xf * 16 + bit_and y 0x3c / 4) % 256

unfoldable pub byte_2 : ℕ → ℕ → ℕ
byte_2 y z = (bit_and y 0x3 * 64 + z) % 256

-- Four symbols to three bytes.
abbrev pub triple : ℕ → ℕ → ℕ → ℕ → Bytes
triple w x y z = byte_0 (find w) (find x) ∷ byte_1 (find x) (find y) ∷ byte_2 (find y) (find z) ∷ []

-- The code behind the loop, `if (i)`: the missing symbols are NUL, and `i - 1` bytes are kept.
unfoldable pub decode_rest : Bytes → Bytes
decode_rest [] = []
decode_rest (w ∷ []) = take 0 (triple w 0 0 0)
decode_rest (w ∷ x ∷ []) = take 1 (triple w x 0 0)
decode_rest (w ∷ x ∷ y ∷ _) = take 2 (triple w x y 0)

-- The loop's test fails at this byte.
abbrev pub stops : ℕ → Bool
stops c = c == b'=' || not (is_base64 c)

-- The loop; its first argument is the `i` symbols of `charArray4` in use.
unfoldable pub decode_loop : Bytes → Bytes → Bytes
unfolding decode_rest
decode_loop pending [] = decode_rest pending
decode_loop [] (c ∷ cs) =
    let next = decode_loop (c ∷ []) cs in if stops c then decode_rest [] else next
decode_loop (w ∷ []) (c ∷ cs) =
    let next = decode_loop (w ∷ c ∷ []) cs in if stops c then decode_rest (w ∷ []) else next
decode_loop (w ∷ x ∷ []) (c ∷ cs) =
    let next = decode_loop (w ∷ x ∷ c ∷ []) cs in if stops c then decode_rest (w ∷ x ∷ []) else next
decode_loop (w ∷ x ∷ y ∷ r) (c ∷ cs) =
    let next = triple w x y c ++ decode_loop [] cs in
    if stops c then decode_rest (w ∷ x ∷ y ∷ r) else next

unfoldable pub base64_decode : Bytes → Bytes
unfolding decode_loop
base64_decode s = decode_loop [] s

-- `Base64DecTable`: `none` is the entry -1.
unfoldable pub dec_table : ℕ → Option ℕ
dec_table c =
    if c == b'/'
    then some 63
    else if c == b'+'
    then some 62
    else if within b'a' b'z' c
    then some (26 + c - b'a')
    else if within b'A' b'Z' c
    then some (c - b'A')
    else if within b'0' b'9' c
    then some (52 + c - b'0')
    else none

-- The bytes that `*pd = …; if (++pd >= pend) return` writes, one after the other: the flag says
-- that the function has returned. `room` is the size of the destination.
unfoldable pub write : ℕ → Bytes → Bytes → Bytes × Bool
write room out [] = (out, false)
write room out (b ∷ bs) =
    let next = write room (out ++ b ∷ []) bs in
    if leb room (length (out ++ b ∷ [])) then (out ++ b ∷ [], true) else next

-- The code behind the loop. The last write of all is not followed by a test.
unfoldable pub data_rest : ℕ → Bytes → ℕ → ℕ → Bytes
unfolding write
data_rest room out a bc =
    if leb 8 bc
    then (let (out', full) = write room out ((a / 2 ^ 16) % 256 ∷ []) in
        if full then out' else if leb 16 bc then out' ++ (a / 2 ^ 8) % 256 ∷ [] else out')
    else out

-- The variables of the loop: what has been written, `a` and `bc`, and whether it has returned.
pub record Progress : Type 0 where
  pub out : Bytes
  pub a : ℕ
  pub bc : ℕ
  pub returned : Bool

-- In the loop, with the bits in `a` gathered so far.
abbrev pub gathered : Bytes → ℕ → ℕ → Progress
gathered out a bc = record { out = out; a = a; bc = bc; returned = false }

-- The body of the loop behind the test for -1.
unfoldable pub feed : ℕ → Progress → ℕ → Progress
unfolding write
feed room p n =
    let a = bit_or p.a (bit_and n 63 * 2 ^ (18 - p.bc)) in
    let bc = p.bc + 6 in
    if ltb 18 bc
    then (let w = write room p.out ((a / 2 ^ 16) % 256 ∷ (a / 2 ^ 8) % 256 ∷ a % 256 ∷ []) in
        record { out = w.0; a = 0; bc = 0; returned = w.1 })
    else gathered p.out a bc

-- The loop over the source; the result is what was written.
unfoldable pub data_loop : ℕ → Progress → Bytes → Bytes
unfolding data_rest dec_table feed
data_loop room p [] = data_rest room p.out p.a p.bc
data_loop room p (c ∷ cs) = elim (dec_table c) [
  | none ↦ data_loop room p cs
  | some n ↦ elim (feed room p n).returned [
    | true ↦ (feed room p n).out
    | false ↦ data_loop room (feed room p n) cs
  ]
]

-- What `base64DecodeToData` writes to a destination of `room` bytes; it returns their number.
unfoldable pub base64_decode_to_data : Bytes → ℕ → Bytes
unfolding data_loop
base64_decode_to_data s room = if room == 0 then [] else data_loop room (gathered [] 0 0) s

-- ===== src/Gzip.antt =====
-- src/as_gzip.cpp, `gzdecode`: raw deflate data to text, in a buffer that doubles until it is large
-- enough. zlib and the allocator are parameters.
pub mod Growth
pub mod Uses
pub mod Compress
mod Tests
use as_proxyd.Common.{
  ℕ, zero, suc, ◌+◌, ◌-◌, ◌*◌, ◌%◌, ◌^◌, ◌≤◌, ◌≡◌, ◌≢◌, Bool, true, false, List, [], ◌∷◌, ◌++◌,
  Option, none, some, if◌then◌else◌, Bytes, length,
}

-- The results of zlib that the code tells apart.
pub data Status : Type 0 where
  z_ok z_stream_end z_buf_error z_error : Status

-- `inflateInit2` with `-MAX_WBITS`, `inflate` with `Z_FINISH` into `avail_out` bytes, which gives its
-- status and what it wrote, and `inflateEnd`.
pub record Zlib : Type 0 where
  pub inflate_init : Status
  pub inflate : Bytes → ℕ → Status × Bytes
  pub inflate_end : Status
  -- It writes within the buffer.
  pub inflate_bounds : (s : Bytes) (avail_out : ℕ) → length (inflate s avail_out).1 ≤ avail_out
  -- A stream that ends in a buffer ends in a larger one, with the same text, and is not broken in
  -- a smaller one.
  pub inflate_larger :
      (s : Bytes) (small large : ℕ) (out : Bytes)
      → inflate s small ≡ (z_stream_end, out)
      → small ≤ large
      → inflate s large ≡ (z_stream_end, out)
  pub inflate_smaller :
      (s : Bytes) (small large : ℕ) (out : Bytes)
      → inflate s large ≡ (z_stream_end, out)
      → small ≤ large
      → (inflate s small).0 ≢ z_error

-- The status behind the two calls in the loop's body: a stream that has not ended wants room.
abbrev pub settled : Status → Status → Status
settled z_stream_end end = end
settled z_ok end = z_buf_error
settled z_buf_error end = z_buf_error
settled z_error end = z_error

-- One round: the status and what was written.
unfoldable pub round : Zlib → Bytes → ℕ → Status × Bytes
round z input avail_out = elim z.inflate_init [
  | z_ok ↦ let r = z.inflate input avail_out in (settled r.0 z.inflate_end, r.1)
  | z_stream_end ↦ (z_stream_end, [])
  | z_buf_error ↦ (z_buf_error, [])
  | z_error ↦ (z_error, [])
]

-- `(unsigned long) len * (1 << factor)`, the size of the buffer; `avail_out` keeps 32 bits of it.
abbrev pub buffer_size : Bytes → ℕ → ℕ
buffer_size s factor = length s * 2 ^ factor

-- The loop's body at a factor, if `realloc` finds the room. The input takes the NUL behind the text
-- with it.
unfoldable pub attempt : Zlib → (ℕ → Bool) → Bytes → ℕ → Option (Status × Bytes)
unfolding round
attempt z realloc s factor =
    if realloc (buffer_size s factor)
    then some (round z (s ++ 0 ∷ []) (buffer_size s factor % 2 ^ 32))
    else none

abbrev pub last_factor : ℕ
last_factor = 15

-- The end of a round: another one, if the buffer was too small.
abbrev pub finish : Option (Status × Bytes) → Option Bytes → Option Bytes
finish none again = none
finish (some (z_ok, out)) again = some out
finish (some (z_buf_error, out)) again = again
finish (some (z_stream_end, out)) again = none
finish (some (z_error, out)) again = none

-- The `do` loop, with `left` more rounds to come at most. The factor starts at 4, grows by 1 in each
-- round and stays below 16. The last `realloc`, which shrinks the buffer, is taken to succeed.
unfoldable pub rounds : Zlib → (ℕ → Bool) → Bytes → ℕ → Option Bytes
unfolding attempt
rounds z realloc s zero = finish (attempt z realloc s 15) none
rounds z realloc s (suc left) =
    let again = rounds z realloc s left in finish (attempt z realloc s (14 - left)) again

unfoldable pub gzdecode : Zlib → (ℕ → Bool) → Bytes → Option Bytes
unfolding rounds
gzdecode z realloc s = rounds z realloc s 11

-- `get_byte`: the next byte of the input and what follows it. `none` is `EOF`.
unfoldable pub get_byte : Bytes → Option ℕ × Bytes
get_byte [] = (none, [])
get_byte (c ∷ s) = (some c, s)

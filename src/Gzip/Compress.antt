-- ===== src/Gzip/Compress.antt =====
-- src/as_gzip.cpp, `compress_gzip`: what zlib writes into a buffer of fixed size, block by block, put
-- together. The `deflate` functions of zlib are a parameter.
pub mod Blocks
mod Tests
use as_proxyd.Common.{
  ℕ, zero, suc, ◌+◌, ◌-◌, ◌%◌, ◌^◌, ◌<◌, ◌≤◌, ◌≡◌, List, [], ◌∷◌, ◌++◌, Option, none, some,
  if◌then◌else◌, ltb, Bytes, length, take, ℤ,
}
use as_proxyd.Gzip.{Status, z_ok, z_stream_end, z_buf_error, z_error}

-- `deflateInit2` at a level, which may fail, the input, and `deflate` with `Z_FINISH` into `avail_out`
-- bytes, which gives its status and what it wrote.
pub record Deflater : Type 1 where
  pub Stream : Type 0
  pub deflate_init : ℤ → Option Stream
  pub set_input : Bytes → Stream → Stream
  pub deflate : Stream → ℕ → Status × Bytes × Stream
  -- With `Z_FINISH`, `Z_OK` says that the buffer was full, and less is left to write.
  pub left : Stream → ℕ
  pub deflate_less :
      (t : Stream) (avail_out : ℕ)
      → (deflate t (suc avail_out)).0 ≡ z_ok
      → left (deflate t (suc avail_out)).2 < left t

-- The size of `outbuffer`.
abbrev pub block_size : ℕ
block_size = 32768

-- The block is appended up to `total_out`.
unfoldable pub append_block : Bytes → ℕ → Bytes → Bytes
append_block out total block =
    if ltb (length out) total then out ++ take (total - length out) block else out

-- Behind the loop.
abbrev pub ended : Status → Bytes → Bytes
ended z_stream_end out = out
ended _ out = []

abbrev pub again : Status → Bytes → Option Bytes → Option Bytes
again z_ok out rest = rest
again st out rest = some (ended st out)

module _ (D : Deflater) where
  -- The `do` loop, with `outstring` and `total_out`; `none` is a loop that has not ended after so many
  -- rounds.
  unfoldable pub deflate_blocks : ℕ → D.Stream → Bytes → ℕ → Option Bytes
  unfolding append_block
  deflate_blocks zero t out total = none
  deflate_blocks (suc fuel) t out total =
      let (st, block, t') = D.deflate t block_size in
      let total' = (total + length block) % 2 ^ 64 in
      let out' = append_block out total' block in
      let rest = deflate_blocks fuel t' out' total' in again st out' rest

  -- `avail_in` keeps 32 bits of the length of the input.
  abbrev pub opened : Bytes → D.Stream → D.Stream
  opened s t = D.set_input (take (length s % 2 ^ 32) s) t

  unfoldable pub compress_gzip : Bytes → ℤ → Option Bytes
  unfolding deflate_blocks
  compress_gzip s level = elim (D.deflate_init level) [
    | none ↦ some []
    | some t ↦ deflate_blocks (suc (D.left (opened s t))) (opened s t) [] 0
  ]

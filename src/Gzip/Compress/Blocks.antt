-- ===== src/Gzip/Compress/Blocks.antt =====
-- What `compress_gzip` (src/as_gzip.cpp) puts together.
use as_proxyd.Common.{
  ℕ, zero, suc, ◌+◌, ◌-◌, ◌%◌, ◌^◌, ◌<◌, ◌≡◌, ◌≢◌, refl, ◌∙◌, sym, ap, arith, List, [], ◌∷◌, ◌++◌,
  Option, some, true, false, ltb, Bytes, length, length-append, append_assoc, append-nil, take, ℤ,
}
use as_proxyd.Gzip.{Status, z_ok, z_stream_end, z_buf_error, z_error}
use as_proxyd.Gzip.Compress.{
  Deflater, block_size, append_block, ended, again, deflate_blocks, opened, compress_gzip,
}

-- The blocks as one text.
unfoldable pub joined : List Bytes → Bytes
joined [] = []
joined (b ∷ bs) = b ++ joined bs

take_all : (s : Bytes) → take (length s) s ≡ s
take_all [] = refl
take_all (c ∷ s) = ap (◌∷◌ c) (take_all s)

-- While the counter of zlib does not wrap around, a block is appended as it is.
append_block-whole :
    (out block : Bytes)
    → length out + length block < 2 ^ 64
    → append_block out ((length out + length block) % 2 ^ 64) block ≡ out ++ block
unfolding append_block
append_block-whole out [] h =
    let e : ltb (length out) ((length out + 0) % 2 ^ 64) ≡ false = ground arith in
    rw e (sym (append-nil out))
append_block-whole out (c ∷ block) h =
    let e : ltb (length out) ((length out + suc (length block)) % 2 ^ 64) ≡ true = ground arith in
    let q : (length out + suc (length block)) % 2 ^ 64 - length out ≡ suc (length block) =
      omega arith in
    rw e (rw q (ap (λ s. out ++ (c ∷ s)) (take_all block)))

module _ (D : Deflater) where
  -- The calls of `deflate` up to the first that is not followed by another one: the blocks that they
  -- write, and the last status.
  pub data Deflates : D.Stream → List Bytes → Status → Type 0 where
    last :
        {t : D.Stream} {st : Status} {block : Bytes} {t' : D.Stream}
        → D.deflate t block_size ≡ (st, block, t')
        → st ≢ z_ok
        → Deflates t (block ∷ []) st
    more :
        {t : D.Stream} {st : Status} {block : Bytes} {t' : D.Stream} {bs : List Bytes}
        → D.deflate t block_size ≡ (z_ok, block, t')
        → Deflates t' bs st
        → Deflates t (block ∷ bs) st

  round-Deflates :
      (t : D.Stream) (r : Status × Bytes × D.Stream)
      → D.deflate t block_size ≡ r
      → (r.0 ≡ z_ok → (bs : List Bytes) × (st : Status) × Deflates r.2 bs st)
      → (bs : List Bytes) × (st : Status) × Deflates t bs st
  round-Deflates t (z_ok, block, t') e f = let (bs, st, d) = f refl in (block ∷ bs, st, more e d)
  round-Deflates t (z_stream_end, block, t') e f = (block ∷ [], z_stream_end, last e (λ q. cc))
  round-Deflates t (z_buf_error, block, t') e f = (block ∷ [], z_buf_error, last e (λ q. cc))
  round-Deflates t (z_error, block, t') e f = (block ∷ [], z_error, last e (λ q. cc))

  -- The calls come to an end.
  Deflates-exists :
      (fuel : ℕ) (t : D.Stream)
      → D.left t < fuel
      → (bs : List Bytes) × (st : Status) × Deflates t bs st
  Deflates-exists zero t h = absurd (omega arith)
  Deflates-exists (suc fuel) t h = round-Deflates t (D.deflate t block_size) refl (λ e.
      Deflates-exists fuel (D.deflate t block_size).2 (omega (arith, D.deflate_less t 32767 e)))

  again_end :
      (st : Status) (out : Bytes) (rest : Option Bytes)
      → st ≢ z_ok
      → again st out rest ≡ some (ended st out)
  again_end z_ok out rest n = absurd (n refl)
  again_end z_stream_end out rest n = refl
  again_end z_buf_error out rest n = refl
  again_end z_error out rest n = refl

  deflate_blocks-Deflates :
      {t : D.Stream} {bs : List Bytes} {st : Status} (fuel : ℕ) (out : Bytes) (total : ℕ)
      → Deflates t bs st
      → D.left t < fuel
      → total ≡ length out
      → length out + length (joined bs) < 2 ^ 64
      → deflate_blocks D fuel t out total ≡ some (ended st (out ++ joined bs))
  unfolding deflate_blocks joined
  deflate_blocks-Deflates zero out total d h e k = absurd (omega arith)
  deflate_blocks-Deflates (suc fuel) out total (last {t} {st} {block} {t'} r n) h e k =
      let w = append_block-whole out block (omega (arith, length-append block [])) in
      rw r (rw e (rw w (again_end st (out ++ block) _ n ∙ rw (append-nil block) refl)))
  deflate_blocks-Deflates (suc fuel) out total (more {t} {st} {block} {t'} {bs} r d) h e k =
      let b : length out + length block < 2 ^ 64 = omega (arith, length-append block (joined bs)) in
      let w = append_block-whole out block b in
      let l : D.left t' < D.left t =
        rw (ap (λ (x : Status × Bytes × D.Stream). x.2) r) at
          (D.deflate_less t 32767 (ap (λ x. x.0) r)) in
      rw r (
        rw e (
          rw w (
            deflate_blocks-Deflates {t = t'} {bs = bs} {st = st} fuel (out ++ block)
              ((length out + length block) % 2 ^ 64) d (omega arith)
              (omega (arith, length-append out block))
              (omega (arith, length-append out block, length-append block (joined bs)))
            ∙ rw (append_assoc out block (joined bs)) refl)))

  -- If zlib sets up its stream and writes fewer than 2^64 bytes for the input, then `compress_gzip` ends:
  -- it calls `deflate` until that wants no more calls, and returns the blocks of all calls one behind the
  -- other if the stream has ended, and the empty text if not.
  pub compress_gzip_lem :
      (s : Bytes) (level : ℤ) (t : D.Stream)
      → D.deflate_init level ≡ some t
      → ((bs : List Bytes) (st : Status)
          → Deflates (opened D s t) bs st
          → length (joined bs) < 2 ^ 64)
      → (bs : List Bytes) × (st : Status) × Deflates (opened D s t) bs st
        × (compress_gzip D s level ≡ some (ended st (joined bs)))
  unfolding compress_gzip
  compress_gzip_lem s level t e small =
      let fuel : ℕ = suc (D.left (opened D s t)) in
      let (bs, st, d) = Deflates-exists fuel (opened D s t) (omega arith) in
      let h = small bs st d in
      (
        bs,
        st,
        d,
        rw (e, compress_gzip)
            (deflate_blocks-Deflates fuel [] 0 d (omega arith) refl (omega arith)),
      )

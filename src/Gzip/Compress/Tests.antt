-- ===== src/Gzip/Compress/Tests.antt =====
-- A format that writes every byte as it is, in blocks of the size of the buffer, and the theorem on
-- `compress_gzip` (src/as_gzip.cpp) with it.
use as_proxyd.Common.{
  ℕ, zero, suc, ◌≤◌, ◌<◌, ◌≡◌, ◌≢◌, ◌^◌, refl, ap, sym, arith, true, List, [], ◌∷◌, some,
  if◌then◌else◌, leb, Bytes, length, take, drop, codes, pos,
}
use as_proxyd.Gzip.{Status, z_ok, z_stream_end}
use as_proxyd.Gzip.Compress.{Deflater, ended, compress_gzip}
use as_proxyd.Gzip.Compress.Blocks.{Deflates, last, more, joined, compress_gzip_lem}

abbrev copied : Bytes → ℕ → Status × Bytes × Bytes
copied s n = (if leb (length s) n then z_stream_end else z_ok, take n s, drop n s)

drop_less : (s : Bytes) (n : ℕ) → length (drop n s) ≤ length s
drop_less s zero = omega arith
drop_less [] (suc n) = omega arith
drop_less (c ∷ s) (suc n) = omega (arith, drop_less s n)

not_ok : z_stream_end ≢ z_ok
not_ok e = cc

copied_less :
    (s : Bytes) (n : ℕ) → (copied s (suc n)).0 ≡ z_ok → length (copied s (suc n)).2 < length s
copied_less [] n e = let q : leb 0 (suc n) ≡ true = ground arith in absurd (not_ok (rw q at e))
copied_less (c ∷ s) n e = omega (arith, drop_less s n)

abbrev copying : Deflater
copying = record {
  Stream = Bytes;
  deflate_init = λ level. some [];
  set_input = λ s t. s;
  deflate = copied;
  left = length;
  deflate_less = copied_less;
}

small :
    {t : Bytes} {bs : List Bytes} {st : Status}
    → Deflates copying t bs st
    → t ≡ codes "abc"
    → length (joined bs) < 2 ^ 64
unfolding joined
small (last {t} {st} {block} {t'} r n) e =
    let q : codes "abc" ≡ block = ap (λ (x : Status × Bytes × Bytes). x.1) (rw e at r) in
    rw (sym q) (omega arith)
small (more {t} {st} {block} {t'} {bs} r d) e =
    absurd (not_ok (ap (λ (x : Status × Bytes × Bytes). x.0) (rw e at r)))

compress_gzip_lem_example :
    (bs : List Bytes) × (st : Status) × Deflates copying (codes "abc") bs st
    × (compress_gzip copying (codes "abc") (pos 9) ≡ some (ended st (joined bs)))
compress_gzip_lem_example =
    compress_gzip_lem copying (codes "abc") (pos 9) [] refl (λ bs st d. small d refl)

-- ===== src/Gzip/Tests.antt =====
-- A small format in the place of deflate, one byte for twenty, and the theorems on `gzdecode` with it.
use as_proxyd.Common.{
  ℕ, ◌≤◌, ◌≡◌, ◌≢◌, refl, ap, arith, true, [], ◌∷◌, some, if◌then◌else◌, leb, Bytes, length, codes,
}
use as_proxyd.Gzip.{Status, z_ok, z_stream_end, z_buf_error, z_error, Zlib, gzdecode}
use as_proxyd.Gzip.Uses.{returned, gzdecode_uses, gzdecode_uses_lem}
use as_proxyd.Ownership.{run_uses}
use as_proxyd.Gzip.Growth.{Inflates, gzdecode_complete, gzdecode_sound}

abbrev twenty : ℕ → Bytes
twenty c = c ∷ c ∷ c ∷ c ∷ c ∷ c ∷ c ∷ c ∷ c ∷ c ∷ c ∷ c ∷ c ∷ c ∷ c ∷ c ∷ c ∷ c ∷ c ∷ c ∷ []

abbrev spread : Bytes → ℕ → Status × Bytes
spread [] n = (z_error, [])
spread (c ∷ cs) n = if leb 20 n then (z_stream_end, twenty c) else (z_buf_error, [])

spread_bounds : (s : Bytes) (n : ℕ) → length (spread s n).1 ≤ n
spread_bounds [] n = omega arith
spread_bounds (c ∷ cs) n = ground arith

spread_larger :
    (s : Bytes) (small large : ℕ) (out : Bytes)
    → spread s small ≡ (z_stream_end, out)
    → small ≤ large
    → spread s large ≡ (z_stream_end, out)
spread_larger [] small large out e h = e
spread_larger (c ∷ cs) small large out e h = ground arith

spread_smaller :
    (s : Bytes) (small large : ℕ) (out : Bytes)
    → spread s large ≡ (z_stream_end, out)
    → small ≤ large
    → (spread s small).0 ≢ z_error
spread_smaller [] small large out e h =
    let c : z_error ≡ z_stream_end = ap (λ (x : Status × Bytes). x.0) e in cc
spread_smaller (c ∷ cs) small large out e h = ground arith

unfoldable zlib : Zlib
unfolding spread_bounds
zlib = record {
  inflate_init = z_ok;
  inflate = spread;
  inflate_end = z_ok;
  inflate_bounds = spread_bounds;
  inflate_larger = spread_larger;
  inflate_smaller = spread_smaller;
}

gzdecode_complete_example : gzdecode zlib (λ n. true) (codes "a") ≡ some (twenty 97)
unfolding zlib
gzdecode_complete_example =
    gzdecode_complete zlib (λ n. true) (codes "a") 5 (twenty 97) (λ n. refl) (omega arith) refl refl
      refl (omega arith) (omega arith)

gzdecode_sound_example :
    (f : ℕ) × (4 ≤ f) × (f ≤ 15) × Inflates zlib (λ n. true) (codes "a") f (twenty 97)
gzdecode_sound_example =
    gzdecode_sound zlib (λ n. true) (codes "a") (twenty 97) gzdecode_complete_example

-- The buffer of the second round is large enough, and the caller's.
gzdecode_uses_lem_example :
    run_uses (gzdecode_uses zlib (λ n. true) (codes "a")) []
    ≡ some (returned (gzdecode zlib (λ n. true) (codes "a")))
gzdecode_uses_lem_example = gzdecode_uses_lem zlib (λ n. true) (codes "a") refl

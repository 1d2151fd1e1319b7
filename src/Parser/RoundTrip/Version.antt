-- ===== src/Parser/RoundTrip/Version.antt =====
-- The version of the protocol: its digits are read as a decimal number, which an `int` has room for.
use as_proxyd.Common.{
  ℕ, ◌+◌, ◌-◌, ◌*◌, ◌^◌, ◌≤◌, ◌<◌, ◌≡◌, refl, ◌∙◌, arith, true, false, [], ◌∷◌, ◌++◌, all, Bytes,
  is_dec,
}
use as_proxyd.Request.{Request}
use as_proxyd.Parser.{
  http_version_h, http_version_t_1, http_version_t_2, http_version_p, http_version_slash,
  http_version_major_start, http_version_major, http_version_minor_start, http_version_minor,
  expecting_newline_1, header_line_start, more, consume, parse, shift_in, digits_value, is_digit,
  is_empty,
}
use as_proxyd.Parser.Wire.{print_version}
use as_proxyd.Parser.RoundTrip.Fields.{at, parse-more, move}

digits_value_le : (v : ℕ) (cs : Bytes) → all is_dec cs ≡ true → v ≤ digits_value v cs
unfolding digits_value is_dec
digits_value_le v [] h = omega arith
digits_value_le v (c ∷ cs) h = ground (arith, digits_value_le (v * 10 + (c - 48)) cs)

-- The digits that are still to come do not make the number smaller.
next_fits :
    (v c : ℕ) (cs : Bytes)
    → all is_dec (c ∷ cs) ≡ true
    → digits_value v (c ∷ cs) + 48 < 2 ^ 31
    → (v * 10 + c < 2 ^ 31) × (digits_value (shift_in v c) cs ≡ digits_value v (c ∷ cs))
unfolding digits_value is_dec shift_in
next_fits v c cs h g = (
  ground (arith, digits_value_le (v * 10 + (c - 48)) cs),
  let e : is_dec c ≡ true = ground arith in
      let d : v * 10 + c - 48 ≡ v * 10 + (c - 48) = ground arith in rw d (ground arith),
)

abbrev with_major : Request → ℕ → Request
with_major r v = record r { http_version_major = v }

abbrev with_minor : Request → ℕ → Request
with_minor r v = record r { http_version_minor = v }

module _ (b : ℕ) (r : Request) where
  consume-major_start :
      (c : ℕ)
      → is_dec c ≡ true
      → r.http_version_major * 10 + c < 2 ^ 31
      → consume (at http_version_major_start b r) c
        ≡ more (at http_version_major b (with_major r (shift_in r.http_version_major c)))
  unfolding consume is_dec is_digit
  consume-major_start c h g = ground arith

  consume-major :
      (c : ℕ)
      → is_dec c ≡ true
      → r.http_version_major * 10 + c < 2 ^ 31
      → consume (at http_version_major b r) c
        ≡ more (at http_version_major b (with_major r (shift_in r.http_version_major c)))
  unfolding consume is_dec is_digit
  consume-major c h g = ground arith

  consume-minor_start :
      (c : ℕ)
      → is_dec c ≡ true
      → r.http_version_minor * 10 + c < 2 ^ 31
      → consume (at http_version_minor_start b r) c
        ≡ more (at http_version_minor b (with_minor r (shift_in r.http_version_minor c)))
  unfolding consume is_dec is_digit
  consume-minor_start c h g = ground arith

  consume-minor :
      (c : ℕ)
      → is_dec c ≡ true
      → r.http_version_minor * 10 + c < 2 ^ 31
      → consume (at http_version_minor b r) c
        ≡ more (at http_version_minor b (with_minor r (shift_in r.http_version_minor c)))
  unfolding consume is_dec is_digit
  consume-minor c h g = ground arith

run-major :
    (cs rest : Bytes) (b : ℕ) (r : Request)
    → all is_dec cs ≡ true
    → digits_value r.http_version_major cs + 48 < 2 ^ 31
    → parse (at http_version_major b r) (cs ++ (b'.' ∷ rest))
      ≡ parse
          (at http_version_minor_start b (with_major r (digits_value r.http_version_major cs)))
          rest
unfolding parse digits_value
run-major [] rest b r h g =
    move http_version_major http_version_minor_start b'.' rest b r (unfold consume in refl)
run-major (c ∷ cs) rest b r h g =
    let (f, e) = next_fits r.http_version_major c cs h g in
    parse-more _ c (cs ++ (b'.' ∷ rest)) (consume-major b r c (ground arith) f)
    ∙ run-major cs rest b (with_major r (shift_in r.http_version_major c)) (ground arith) (rw e g)
    ∙ rw e refl

run-minor :
    (cs rest : Bytes) (b : ℕ) (r : Request)
    → all is_dec cs ≡ true
    → digits_value r.http_version_minor cs + 48 < 2 ^ 31
    → parse (at http_version_minor b r) (cs ++ (b'\r' ∷ b'\n' ∷ rest))
      ≡ parse (at header_line_start b (with_minor r (digits_value r.http_version_minor cs))) rest
unfolding parse digits_value
run-minor [] rest b r h g =
    move http_version_minor expecting_newline_1 b'\r' (b'\n' ∷ rest) b r (unfold consume in refl)
    ∙ move expecting_newline_1 header_line_start b'\n' rest b r (unfold consume in refl)
run-minor (c ∷ cs) rest b r h g =
    let (f, e) = next_fits r.http_version_minor c cs h g in
    parse-more _ c (cs ++ (b'\r' ∷ b'\n' ∷ rest)) (consume-minor b r c (ground arith) f)
    ∙ run-minor cs rest b (with_minor r (shift_in r.http_version_minor c)) (ground arith) (rw e g)
    ∙ rw e refl

run_major :
    (cs rest : Bytes) (b : ℕ) (r : Request)
    → is_empty cs ≡ false
    → all is_dec cs ≡ true
    → digits_value r.http_version_major cs + 48 < 2 ^ 31
    → parse (at http_version_major_start b r) (cs ++ (b'.' ∷ rest))
      ≡ parse
          (at http_version_minor_start b (with_major r (digits_value r.http_version_major cs)))
          rest
run_major [] rest b r ne h g = cc
run_major (c ∷ cs) rest b r ne h g =
    let (f, e) = next_fits r.http_version_major c cs h g in
    parse-more _ c (cs ++ (b'.' ∷ rest)) (consume-major_start b r c (ground arith) f)
    ∙ run-major cs rest b (with_major r (shift_in r.http_version_major c)) (ground arith) (rw e g)
    ∙ rw e refl

run_minor :
    (cs rest : Bytes) (b : ℕ) (r : Request)
    → is_empty cs ≡ false
    → all is_dec cs ≡ true
    → digits_value r.http_version_minor cs + 48 < 2 ^ 31
    → parse (at http_version_minor_start b r) (cs ++ (b'\r' ∷ b'\n' ∷ rest))
      ≡ parse (at header_line_start b (with_minor r (digits_value r.http_version_minor cs))) rest
run_minor [] rest b r ne h g = cc
run_minor (c ∷ cs) rest b r ne h g =
    let (f, e) = next_fits r.http_version_minor c cs h g in
    parse-more _ c (cs ++ (b'\r' ∷ b'\n' ∷ rest)) (consume-minor_start b r c (ground arith) f)
    ∙ run-minor cs rest b (with_minor r (shift_in r.http_version_minor c)) (ground arith) (rw e g)
    ∙ rw e refl

module _ (b : ℕ) (r : Request) where
  consume-slash :
      consume (at http_version_slash b r) b'/'
      ≡ more (at http_version_major_start b (with_minor (with_major r 0) 0))
  unfolding consume
  consume-slash = refl

  run_http :
      (rest : Bytes)
      → parse (at http_version_h b r) (b'H' ∷ b'T' ∷ b'T' ∷ b'P' ∷ b'/' ∷ rest)
        ≡ parse (at http_version_major_start b (with_minor (with_major r 0) 0)) rest
  run_http rest =
      move http_version_h http_version_t_1 b'H' (b'T' ∷ b'T' ∷ b'P' ∷ b'/' ∷ rest) b r
        (unfold consume in refl)
      ∙ move http_version_t_1 http_version_t_2 b'T' (b'T' ∷ b'P' ∷ b'/' ∷ rest) b r
          (unfold consume in refl)
      ∙ move http_version_t_2 http_version_p b'T' (b'P' ∷ b'/' ∷ rest) b r (unfold consume in refl)
      ∙ move http_version_p http_version_slash b'P' (b'/' ∷ rest) b r (unfold consume in refl)
      ∙ parse-more (at http_version_slash b r) b'/' rest consume-slash

  -- From the blank behind the URI to the first header line.
  pub run_version :
      (major minor rest : Bytes)
      → is_empty major ≡ false
      → all is_dec major ≡ true
      → digits_value 0 major + 48 < 2 ^ 31
      → is_empty minor ≡ false
      → all is_dec minor ≡ true
      → digits_value 0 minor + 48 < 2 ^ 31
      → parse (at http_version_h b r) (print_version major minor rest)
        ≡ parse
            (at header_line_start b
              (with_minor (with_major r (digits_value 0 major)) (digits_value 0 minor)))
            rest
  run_version major minor rest ne h f ne' h' f' =
      run_http (major ++ (b'.' ∷ (minor ++ (b'\r' ∷ b'\n' ∷ rest))))
      ∙ run_major major _ b (with_minor (with_major r 0) 0) ne h f
      ∙ run_minor minor rest b _ ne' h' f'

-- ===== src/Parser/RoundTrip/Content.antt =====
-- The end of the headers and the content.
use as_proxyd.Common.{
  ℕ, suc, ◌≤◌, ◌≡◌, refl, ◌∙◌, arith, false, [], ◌∷◌, ◌++◌, Bytes, some, append_assoc, pos, ltb_ℤ,
  length,
}
use as_proxyd.Request.{Request}
use as_proxyd.Parser.{
  header_line_start, expecting_newline_3, body, Machine, accepted, more, consume, parse,
  max_content, content_length,
}
use as_proxyd.Parser.RoundTrip.Fields.{at, parse-more, move}

abbrev pub with_content : Request → Bytes → Request
with_content r cs = record r { content = cs }

parse-accepted :
    (m : Machine) (c : ℕ) (cs : Bytes) {n : Machine}
    → consume m c ≡ some (accepted, n)
    → parse m (c ∷ cs) ≡ some (accepted, cs, n)
unfolding parse
parse-accepted m c cs e = rw (e, parse)

consume-body_last :
    (c : ℕ) (r : Request)
    → consume (at body 1 r) c ≡ some (accepted, at body 0 (with_content r (r.content ++ c ∷ [])))
unfolding consume
consume-body_last c r = refl

consume-body :
    (c n : ℕ) (r : Request)
    → suc (suc n) ≤ max_content
    → consume (at body (suc (suc n)) r) c
      ≡ more (at body (suc n) (with_content r (r.content ++ c ∷ [])))
unfolding consume
consume-body c n r h = ground arith

run-body :
    (c : ℕ) (cs : Bytes) (r : Request)
    → length (c ∷ cs) ≤ max_content
    → parse (at body (length (c ∷ cs)) r) (c ∷ cs)
      ≡ some (accepted, [], at body 0 (with_content r (r.content ++ c ∷ cs)))
run-body c [] r h = parse-accepted _ c [] (consume-body_last c r)
run-body c (d ∷ cs) r h =
    parse-more _ c (d ∷ cs) (consume-body c (length cs) r h)
    ∙ run-body d cs (with_content r (r.content ++ c ∷ [])) (omega arith)
    ∙ rw append_assoc

module _ (b : ℕ) (r : Request) where
  consume-no_body :
      ltb_ℤ 0 (content_length r) ≡ false
      → consume (at expecting_newline_3 b r) b'\n' ≡ some (accepted, at expecting_newline_3 b r)
  unfolding consume
  consume-no_body h = ground arith

  consume_start_body :
      (n : ℕ)
      → content_length r ≡ pos (suc n)
      → suc n ≤ max_content
      → consume (at expecting_newline_3 b r) b'\n' ≡ more (at body (suc n) r)
  unfolding consume
  consume_start_body n e h = ground arith

  -- A message with no content ends with its headers.
  pub run_no_content :
      ltb_ℤ 0 (content_length r) ≡ false
      → parse (at header_line_start b r) (b'\r' ∷ b'\n' ∷ [])
        ≡ some (accepted, [], at expecting_newline_3 b r)
  run_no_content h =
      move header_line_start expecting_newline_3 b'\r' (b'\n' ∷ []) b r (unfold consume in refl)
      ∙ parse-accepted (at expecting_newline_3 b r) b'\n' [] (consume-no_body h)

  pub run_content :
      (c : ℕ) (cs : Bytes)
      → content_length r ≡ pos (length (c ∷ cs))
      → length (c ∷ cs) ≤ max_content
      → parse (at header_line_start b r) (b'\r' ∷ b'\n' ∷ c ∷ cs)
        ≡ some (accepted, [], at body 0 (with_content r (r.content ++ c ∷ cs)))
  run_content c cs e h =
      move header_line_start expecting_newline_3 b'\r' (b'\n' ∷ c ∷ cs) b r (unfold consume in refl)
      ∙ parse-more (at expecting_newline_3 b r) b'\n' (c ∷ cs) (consume_start_body (length cs) e h)
      ∙ run-body c cs r h

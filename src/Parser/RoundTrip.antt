-- ===== src/Parser/RoundTrip.antt =====
-- src/request_parser.cpp reads back every message of the grammar. Each lemma of the children runs
-- the parser over one piece of a message, with any `rest` behind it.
mod Fields
mod Version
mod Content
use as_proxyd.Common.{
  ℕ, ◌≡◌, refl, ◌∙◌, Bool, true, false, List, [], ◌∷◌, ◌++◌, inl, inr, some, Bytes, ltb_ℤ, pos,
  length, ◌≤◌, ◌⊎◌, map, ap, arith, append-nil,
}
use as_proxyd.Request.{Request, clear, get_header}
use as_proxyd.Parser.{
  method_start, header_line_start, Machine, accepted, parse, content_length, max_content,
}
use as_proxyd.Parser.Chunks.{then_parse, parse-append}
use as_proxyd.Parser.Safety.{IsComplete}
use as_proxyd.Parser.Wire.{
  Message, print, print_headers, print_version, request_of, IsWire, lower_name,
}
use Fields.{at, run_method, run-uri, run_headers}
use Version.{run_version}
use Content.{with_content, run_no_content, run_content}

-- The parser accepts, with nothing left over and the given request.
abbrev pub Accepts : Machine → Bytes → Request → Type 0
Accepts m xs r = (n : Machine) × (parse m xs ≡ some (accepted, [], n)) × (n.request ≡ r)

run_end :
    (cs : Bytes) (b : ℕ) (r : Request)
    → r.content ≡ []
    → IsComplete (with_content r cs)
    → Accepts (at header_line_start b r) (b'\r' ∷ b'\n' ∷ cs) (with_content r cs)
unfolding get_header
run_end [] b r e (inl (h, _)) = (_, run_no_content b r h, rw (← e))
run_end (c ∷ cs) b r e (inl (h, k)) = cc
run_end [] b r e (inr (h, k)) = (_, run_no_content b r (rw h), rw (← e))
run_end (c ∷ cs) b r e (inr (h, k)) = (_, run_content b r c cs h k, rw e)

headers_request : Message → Request
headers_request w = with_content (request_of w) []

run_head :
    (w : Message) (b : ℕ) (r : Request)
    → IsWire w
    → parse (at method_start b (clear r)) (print w)
      ≡ parse (at header_line_start b (headers_request w)) (b'\r' ∷ b'\n' ∷ w.content)
unfolding clear print headers_request
run_head w b r v =
    run_method w.method _ b _ v.method_ne v.method_ok
    ∙ run-uri w.uri _ b _ v.uri_ok
    ∙ run_version b _ w.major w.minor _ v.major_ne v.major_ok v.major_fits v.minor_ne v.minor_ok
        v.minor_fits
    ∙ run_headers w.headers [] _ b (headers_request w) v.headers_ok

parse-print-Accepts :
    (w : Message) (b : ℕ) (r : Request)
    → IsWire w
    → Accepts (at method_start b (clear r)) (print w) (request_of w)
unfolding headers_request
parse-print-Accepts w b r v =
    let (n, e, q) = run_end w.content b (headers_request w) refl v.complete in
    (n, run_head w b r v ∙ e, q)

-- From a cleared request, at the start of a message, the parser accepts every message of the
-- grammar, whose version numbers an `int` has room for, at its last byte and not before, leaves what stands behind it, and has then built the
-- request that the message stands for.
pub parse-print :
    (w : Message) (rest : Bytes) (b : ℕ) (r : Request)
    → IsWire w
    → (n : Machine) × (parse
          (record { state = method_start; body_bytes = b; request = clear r })
          (print w ++ rest)
        ≡ some (accepted, rest, n))
      × (n.request ≡ request_of w)
parse-print w rest b r v =
    let (n, e, q) = parse-print-Accepts w b r v in
    (n, parse-append _ (print w) rest ∙ ap (λ p. then_parse p rest) e, q)

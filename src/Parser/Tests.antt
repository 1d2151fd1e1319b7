-- ===== src/Parser/Tests.antt =====
-- Runs of the parser, and its theorems at concrete inputs.
use as_proxyd.Common.{
  [], ◌∷◌, ◌++◌, ◌≡◌, refl, inr, some, codes, arith, is_dec, to_lower, is_dec, bytes_eq,
}
use as_proxyd.Request.{Request, clear, get_header}
use as_proxyd.Parser.{method_start, Machine, accepted, parse, atoi, is_ctl, not_token}
use as_proxyd.Parser.Chunks.{then_parse, parse-append}
use as_proxyd.Parser.Clean.{IsClean, CleanParsed, parse-CleanParsed}
use as_proxyd.Parser.RoundTrip.{parse-print}
use as_proxyd.Parser.Wire.{Message, print, request_of, IsWire}

abbrev blank_request : Request
blank_request = record {
  method = [];
  uri = [];
  http_version_major = 0;
  http_version_minor = 0;
  headers = [];
  content = [];
}

abbrev fresh : Machine
fresh = record { state = method_start; body_bytes = 0; request = blank_request }

abbrev upload : Message
upload = record {
  method = codes "POST";
  uri = codes "/get?ns=a";
  major = codes "1";
  minor = codes "1";
  headers =
      record { name = codes "Host"; value = codes "db" }
      ∷ record { name = codes "Content-Length"; value = codes "2" }
      ∷ [];
  content = codes "hi";
}

upload_text :
    print upload ≡ codes "POST /get?ns=a HTTP/1.1\r\nHost: db\r\nContent-Length: 2\r\n\r\nhi"
unfolding print
upload_text = refl

upload-IsWire : IsWire upload
unfolding not_token is_ctl is_dec atoi get_header bytes_eq to_lower
upload-IsWire = record {
  major_fits = omega arith;
  minor_fits = omega arith;
  method_ne = refl;
  method_ok = refl;
  uri_ok = refl;
  major_ne = refl;
  major_ok = refl;
  minor_ne = refl;
  minor_ok = refl;
  headers_ok = ((refl, refl, refl), ((refl, refl, refl), tt));
  complete = inr (refl, omega arith);
}

parse-print_example :
    (n : Machine) × (parse fresh (print upload ++ codes "GET") ≡ some (accepted, codes "GET", n))
    × (n.request ≡ request_of upload)
unfolding clear
parse-print_example = parse-print upload (codes "GET") 0 blank_request upload-IsWire

in_two_parts :
    parse fresh (codes "GE" ++ codes "T /") ≡ then_parse (parse fresh (codes "GE")) (codes "T /")
in_two_parts = parse-append fresh (codes "GE") (codes "T /")

fresh-IsClean : IsClean blank_request
fresh-IsClean = record { method_ok = refl; uri_ok = refl; headers_ok = tt }

parse-CleanParsed_example : CleanParsed (parse fresh (print upload))
parse-CleanParsed_example = parse-CleanParsed fresh (print upload) fresh-IsClean

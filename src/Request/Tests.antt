-- ===== src/Request/Tests.antt =====
-- The theorems on requests at concrete inputs.
use as_proxyd.Common.{
  List, [], ◌∷◌, ◌++◌, ◌≡◌, ◌≢◌, ◌⊎◌, ◌↔◌, true, false, map, codes, to_lower, ◌*◌, ◌+◌, ◌^◌, ◌<◌,
  arith, Bytes,
}
use as_proxyd.Request.{Header, Request, get_header, want_keepalive}
use as_proxyd.Request.Laws.{want_keepalive_cases}

abbrev header_list : List Header
header_list = record { name = codes "host"; value = codes "db" } ∷ []

abbrev closing : Request
closing = record {
  method = codes "GET";
  uri = codes "/status";
  http_version_major = 1;
  http_version_minor = 1;
  headers = header_list ++ record { name = codes "connection"; value = codes "Close" } ∷ [];
  content = [];
}

abbrev closing_wish : Bytes
closing_wish = map to_lower (get_header closing (codes "connection"))

want_keepalive_cases_example :
    ((closing_wish ≡ codes "close") × (want_keepalive (map to_lower) closing ≡ false))
    ⊎ ((closing_wish ≡ codes "keep-alive") × (want_keepalive (map to_lower) closing ≡ true))
    ⊎ ((closing_wish ≢ codes "close")
        × (closing_wish ≢ codes "keep-alive")
        × ((want_keepalive (map to_lower) closing ≡ true) ↔ (2 ^ 31 < 1 * 2 ^ 31 + 1)))
want_keepalive_cases_example =
    want_keepalive_cases (map to_lower) closing (omega arith) (omega arith)

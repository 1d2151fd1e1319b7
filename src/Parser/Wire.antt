-- ===== src/Parser/Wire.antt =====
-- The grammar of HTTP requests that src/request_parser.cpp reads, as a printer of messages.
use as_proxyd.Common.{
  ◌+◌, ◌<◌, ◌^◌, true, false, List, [], ◌∷◌, ◌++◌, map, ◌≡◌, all, All, Bytes, is_dec, to_lower,
}
use as_proxyd.Request.{Header, Request}
use as_proxyd.Parser.{is_empty, digits_value}
use as_proxyd.Parser.Clean.{token, uri_byte, value_byte}
use as_proxyd.Parser.Safety.{IsComplete}

-- A request as it is sent; the versions are digits.
pub record Message : Type 0 where
  pub method : Bytes
  pub uri : Bytes
  pub major : Bytes
  pub minor : Bytes
  pub headers : List Header
  pub content : Bytes

-- Each piece stands in front of what follows it.
abbrev pub print_header : Header → Bytes → Bytes
print_header h rest = h.name ++ (b':' ∷ b' ' ∷ (h.value ++ (b'\r' ∷ b'\n' ∷ rest)))

abbrev pub print_headers : List Header → Bytes → Bytes
print_headers [] rest = rest
print_headers (h ∷ hs) rest = print_header h (print_headers hs rest)

abbrev pub print_version : Bytes → Bytes → Bytes → Bytes
print_version major minor rest =
    b'H' ∷ b'T' ∷ b'T' ∷ b'P' ∷ b'/' ∷ (major ++ (b'.' ∷ (minor ++ (b'\r' ∷ b'\n' ∷ rest))))

unfoldable pub print : Message → Bytes
print w =
    w.method
    ++ (b' '
        ∷ (w.uri
            ++ (b' '
                ∷ print_version w.major w.minor
                    (print_headers w.headers (b'\r' ∷ b'\n' ∷ w.content)))))

abbrev pub lower_name : Header → Header
lower_name h = record h { name = map to_lower h.name }

-- The request that a message stands for.
abbrev pub request_of : Message → Request
request_of w = record {
  method = w.method;
  uri = w.uri;
  http_version_major = digits_value 0 w.major;
  http_version_minor = digits_value 0 w.minor;
  headers = map lower_name w.headers;
  content = w.content;
}

abbrev pub IsWireHeader : Header → Type 0
IsWireHeader h =
    (is_empty h.name ≡ false) × (all token h.name ≡ true) × (all value_byte h.value ≡ true)

-- The messages of the grammar: each field is made of its bytes, those that must not be empty are
-- not, an `int` has room for the versions, and the content is as long as the content-length header says.
pub record IsWire (w : Message) : Type 0 where
  pub method_ne : is_empty w.method ≡ false
  pub method_ok : all token w.method ≡ true
  pub uri_ok : all uri_byte w.uri ≡ true
  pub major_ne : is_empty w.major ≡ false
  pub major_ok : all is_dec w.major ≡ true
  pub major_fits : digits_value 0 w.major + 48 < 2 ^ 31
  pub minor_ne : is_empty w.minor ≡ false
  pub minor_ok : all is_dec w.minor ≡ true
  pub minor_fits : digits_value 0 w.minor + 48 < 2 ^ 31
  pub headers_ok : All IsWireHeader w.headers
  pub complete : IsComplete (request_of w)

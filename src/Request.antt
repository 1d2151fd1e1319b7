-- ===== src/Request.antt =====
-- include/header.hpp and include/request.hpp: a request received from a client.
pub mod Laws
mod Tests
use as_proxyd.Common.{
  ℕ, Bool, true, false, ◌&&◌, ◌||◌, List, [], ◌∷◌, map, ltb_ℤ, signed32, if◌then◌else◌, ◌==◌, Bytes,
  codes, bytes_eq, to_lower,
}

pub record Header : Type 0 where
  pub name : Bytes
  pub value : Bytes

-- The versions are the bit patterns of two `int`s. `tstamp`, which nothing reads, is left out.
pub record Request : Type 0 where
  pub method : Bytes
  pub uri : Bytes
  pub http_version_major : ℕ
  pub http_version_minor : ℕ
  pub headers : List Header
  pub content : Bytes

unfoldable pub clear : Request → Request
clear r = record r {
  method = [];
  uri = [];
  http_version_major = 0;
  http_version_minor = 0;
  headers = [];
  content = [];
}

-- The loop of `get_header`: the value of the first header of that name.
unfoldable pub find_header : List Header → Bytes → Bytes
find_header [] n = []
find_header (h ∷ hs) n = if bytes_eq h.name n then h.value else find_header hs n

unfoldable pub get_header : Request → Bytes → Bytes
unfolding find_header
get_header r n = find_header r.headers n

unfoldable pub is_http11 : Request → Bool
is_http11 r =
    if ltb_ℤ 1 (signed32 r.http_version_major)
      || r.http_version_major == 1 && ltb_ℤ 0 (signed32 r.http_version_minor)
    then true
    else false

-- The first argument stands for `boost::to_lower_copy`.
unfoldable pub want_keepalive : (Bytes → Bytes) → Request → Bool
unfolding is_http11
want_keepalive to_lower_copy r =
    let cxn_hdr = to_lower_copy (get_header r (codes "connection")) in
    if bytes_eq cxn_hdr (codes "close")
    then false
    else if bytes_eq cxn_hdr (codes "keep-alive")
    then true
    else is_http11 r

-- ===== src/Connection/Tests.antt =====
-- A handler that echoes the URI and counts its calls, and the theorems on connections with it.
use as_proxyd.Boost.Model.{boost}
use as_proxyd.Common.{
  ℕ, suc, false, List, [], ◌∷◌, Option, none, some, ◌≡◌, refl, Bytes, codes, arith, inl, to_lower,
  bytes_eq, is_dec,
}
use as_proxyd.Connection.{Handler, shut_down, after_parse, handle_read}
use as_proxyd.Connection.Exchange.{idle, talk, speak, talk-speak}
use as_proxyd.Connection.Life.{Session, session, arrives, opened, Step, Undefined, Step, Undefined}
use as_proxyd.Connection.Reads.{receive, receive-concat}
use as_proxyd.Connection.Refusal.{talk-refused}
use as_proxyd.Parser.{Machine, parse, consume, is_ctl, not_token, atoi, method_start}
use as_proxyd.Parser.Wire.{Message, print, IsWire}
use as_proxyd.Reply.{ok, stock_reply}
use as_proxyd.Request.{Request, get_header, clear}

abbrev echo : Handler ℕ
echo = record {
  handle = λ r rep k w. some (record { status = ok; headers = []; content = r.uri }, suc w);
  handle-status = λ r s t k w. refl;
}

abbrev blank_request : Request
blank_request = record {
  method = [];
  uri = [];
  http_version_major = 0;
  http_version_minor = 0;
  headers = [];
  content = [];
}

abbrev poll : Message
poll = record {
  method = codes "GET";
  uri = codes "/status?";
  major = codes "1";
  minor = codes "1";
  headers = [];
  content = [];
}

abbrev last : Message
last = record poll { headers = record { name = codes "Connection"; value = codes "close" } ∷ [] }

poll_text : print poll ≡ codes "GET /status? HTTP/1.1\r\n\r\n"
unfolding print
poll_text = refl

poll-IsWire : IsWire poll
unfolding not_token is_ctl is_dec atoi get_header
poll-IsWire = record {
  major_fits = omega arith;
  minor_fits = omega arith;
  method_ne = refl;
  method_ok = refl;
  uri_ok = refl;
  major_ne = refl;
  major_ok = refl;
  minor_ne = refl;
  minor_ok = refl;
  headers_ok = tt;
  complete = inl (refl, refl);
}

last-IsWire : IsWire last
unfolding not_token is_ctl is_dec atoi get_header bytes_eq to_lower
last-IsWire = record {
  major_fits = omega arith;
  minor_fits = omega arith;
  method_ne = refl;
  method_ok = refl;
  uri_ok = refl;
  major_ne = refl;
  major_ok = refl;
  minor_ne = refl;
  minor_ok = refl;
  headers_ok = ((refl, refl, refl), tt);
  complete = inl (refl, refl);
}

abbrev rounds : List (List Bytes)
rounds =
    (codes "GET /sta" ∷ codes "tus? HTTP/1.1\r\n\r\nGET /lost?" ∷ [])
    ∷ (codes "GET /status? HTTP/1.1\r\nConnection: close\r\n\r\n" ∷ [])
    ∷ []

talk-speak_example :
    talk boost echo (idle 0 blank_request ok none) 0 rounds ≡ speak boost echo 0 (poll ∷ last ∷ [])
unfolding print
talk-speak_example =
    talk-speak boost echo (poll ∷ last ∷ []) rounds 0 blank_request ok none 0
      ((codes "GET /lost?", refl), poll-IsWire, (([], refl), last-IsWire, tt))

receive-concat_example :
    receive boost echo (idle 0 blank_request ok none) 0 (codes "GET" ∷ codes " /" ∷ [])
    ≡ after_parse boost echo
        (idle 0 blank_request ok none)
        0
        (parse (idle 0 blank_request ok none).parser (codes "GET /"))
receive-concat_example =
    receive-concat boost echo (codes "GET" ∷ codes " /" ∷ []) (idle 0 blank_request ok none) 0

abbrev fresh : Session ℕ
fresh = opened 0 blank_request (stock_reply ok) 0

abbrev after_bad : Option (Session ℕ)
after_bad = session (handle_read boost echo fresh.conn 0 (some (codes "(")))

abbrev arrival : Step boost echo fresh after_bad
arrival = arrives fresh (codes "(") refl (omega arith)

abbrev stopped : Machine
stopped = record { state = method_start; body_bytes = 0; request = blank_request }

talk-refused_example :
    talk boost echo (idle 0 blank_request ok (some false)) 0 ((codes "(" ∷ []) ∷ [])
    ≡ some (codes "HTTP/1.1 400 Bad Request\r\n\r\n", 0, shut_down)
unfolding parse consume not_token clear
talk-refused_example =
    talk-refused boost echo (codes "(" ∷ []) [] 0 blank_request ok (some false) 0 {rest = []}
      {n = stopped} refl

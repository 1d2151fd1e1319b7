-- ===== src/RequestHandler/Tests.antt =====
-- The theorems on the request handler (src/request_handler.cpp) at concrete requests.
mod Uri
mod Uses
use as_proxyd.Aerospike.Model.{fixed}
use as_proxyd.Aerospike.{AsValue}
use as_proxyd.AsObject.{AsObject}
use as_proxyd.AsObject.Convert.Members.{Holds, last_shown}
use as_proxyd.Boost.Model.{boost}
use as_proxyd.Common.{
  ℕ, all, not, ◌&&◌, arith, true, List, [], ◌∷◌, Option, none, some, ◌≡◌, refl, Bytes, codes, pos,
  length, until_nul, if◌then◌else◌, ◌==◌, bytes_eq, to_lower, is_dec, inl,
}
use as_proxyd.Connection.{Handler}
use as_proxyd.Connection.Exchange.{idle, talk}
use as_proxyd.Control.{lookup}
use as_proxyd.Env.{Env}
use as_proxyd.Jansson.{compact}
use as_proxyd.Jansson.Model.{jansson, Value, str, int, obj, end}
use as_proxyd.Parser.{digits_value, is_ctl, not_token, atoi}
use as_proxyd.Parser.Wire.{Message, print, IsWire}
use as_proxyd.Query.{Params, map_get, parse_query}
use as_proxyd.Query.Order.{swap}
use as_proxyd.Query.Print.{Part, pair, bare, last_value}
use as_proxyd.Boost.{join}
use as_proxyd.Reply.{Reply, ok, stock_reply, to_buffers}
use as_proxyd.Reply.Wire.{send, read_reply}
use as_proxyd.Request.{Header, Request, find_header, get_header}
use as_proxyd.RequestHandler.{World, key_of, root_for, handle_request, took, request_handler}
use as_proxyd.RequestHandler.Framing.{AllReadable, IsDefined, handle_request-read_reply}
use as_proxyd.RequestHandler.Printable.{AllNamed}
use as_proxyd.RequestHandler.Routes.{
  Asks, target-query, target-bare, root_for-bare, root_for-status, root_for-other, root_for-get,
}
use as_proxyd.RequestHandler.Service.{talk-IsDefined}
use as_proxyd.RequestHandler.Uri.{target-Escapes, handle_request-Reordered}
use as_proxyd.Url.{url_decode, hex_digit}
use as_proxyd.Url.Escapes.{Escapes, end, literal, escaped}

abbrev shuffle : ℕ → List Bytes → List Bytes
shuffle w s = s

abbrev gunzip : Bytes → Option Bytes
gunzip s = none

abbrev seconds_since : ℕ → Bytes
seconds_since w = codes "0.25"

abbrev the_env : Env
the_env = record {
  boost = boost;
  aerospike = fixed;
  jansson = jansson;
  shuffle = shuffle;
  gunzip = gunzip;
  seconds_since = seconds_since;
}

abbrev live : AsObject
live = record {
  config = record { hosts = []; timeouts = record { read = 9; apply = 9 } };
  err_code = pos 0;
  isalive = true;
}

abbrev world : World the_env
world = record {
  control = record {
    port = pos 3000;
    timeout = pos 1000;
    thread_count = pos 1;
    server_list = [];
    health_file = [];
    threads = (11, 0) ∷ [];
    objects = (11, live) ∷ [];
  };
  cluster = 0;
}

abbrev request_to : Bytes → Request
request_to uri = record {
  method = codes "GET";
  uri = uri;
  http_version_major = 1;
  http_version_minor = 1;
  headers = [];
  content = [];
}

readable : AllReadable the_env
readable c k w = (tt, (tt, tt))

named : AllNamed the_env
named c k w = (refl, (refl, tt))

abbrev get_uri : Bytes
get_uri = codes "/Get?ns=test&set=demo&key=7"

handle_request-read_reply_example :
    (root : Value) × (w' : World the_env) × (root_for the_env 11 (request_to get_uri) world
      ≡ some (root, w'))
    × (text : Bytes) × (jansson.json_dumps compact (took the_env root w') ≡ some text)
    × (rep : Reply) × (handle_request the_env 11 (request_to get_uri) (stock_reply ok) true world
        ≡ some (rep, w'))
    × (hs : List Header) × (read_reply (send (to_buffers rep)) ≡ some (200, hs, until_nul text))
    × (digits_value 0 (find_header hs (codes "Content-Length")) ≡ length (until_nul text))
    × (find_header hs (codes "Connection") ≡ codes "Keep-Alive")
handle_request-read_reply_example =
    handle_request-read_reply the_env 11 (request_to get_uri) ok true world readable named

Asks-get :
    Asks the_env
      (request_to get_uri)
      (codes "/get")
      (parse_query boost (codes "ns=test&set=demo&key=7") [])
unfolding url_decode to_lower
Asks-get =
    target-query the_env (request_to get_uri) (codes "/Get") (codes "ns=test&set=demo&key=7") refl
      refl

Asks-bare : Asks the_env (request_to (codes "/status")) [] []
unfolding url_decode
Asks-bare = target-bare the_env (request_to (codes "/status")) (codes "/status") refl refl

root_for-bare_example :
    root_for the_env 11 (request_to (codes "/status")) world ≡ some (obj end, world)
unfolding url_decode
root_for-bare_example =
    root_for-bare the_env 11 (request_to (codes "/status")) (codes "/status") world refl refl

Asks-status :
    Asks the_env (request_to (codes "/status?")) (codes "/status") (parse_query boost [] [])
unfolding url_decode to_lower
Asks-status = target-query the_env (request_to (codes "/status?")) (codes "/status") [] refl refl

root_for_health :
    (root : Value) × (root_for the_env 11 (request_to (codes "/status?")) world
      ≡ some (root, world))
    × (jansson.json_object_get root (codes "proxy_code") ≡ some (int (pos 100)))
    × (jansson.json_object_get root (codes "proxy_status") ≡ some (str (codes "OK")))
    × (jansson.json_object_get root (codes "results") ≡ none)
root_for_health =
    root_for-status the_env 11 (request_to (codes "/status?")) (parse_query boost [] []) world
      (str (codes "OK")) Asks-status refl

root_for_elsewhere :
    root_for the_env 11 (request_to (codes "/status")) world ≡ some (obj end, world)
unfolding bytes_eq
root_for_elsewhere =
    root_for-other the_env 11 (request_to (codes "/status")) [] [] world Asks-bare refl refl

root_for_record :
    (root : Value) × (w' : World the_env) × (root_for the_env 11 (request_to get_uri) world
      ≡ some (root, w'))
    × (w'.cluster ≡ 1)
    × (results : Value) × (jansson.json_object_get root (codes "results")
        ≡ (if jansson.json_object_size results == 0 then none else some results))
    × Holds jansson gunzip results (λ j.
      last_shown jansson gunzip
        ((codes "age", AsValue.integer (pos 7))
          ∷ (codes "tag", AsValue.string (some (codes "!x")))
          ∷ [])
        j
        none)
unfolding lookup
root_for_record =
    root_for-get the_env 11 (request_to get_uri)
      (parse_query boost (codes "ns=test&set=demo&key=7") []) world live 1 _ Asks-get refl refl refl
      (tt, (tt, tt))

abbrev lookup_message : Message
lookup_message = record {
  method = codes "GET";
  uri = get_uri;
  major = codes "1";
  minor = codes "0";
  headers = [];
  content = [];
}

lookup_message-IsWire : IsWire lookup_message
unfolding not_token is_ctl is_dec atoi get_header
lookup_message-IsWire = record {
  major_fits = omega arith;
  minor_fits = omega arith;
  method_ne = refl;
  method_ok = refl;
  uri_ok = refl;
  major_ne = refl;
  major_ok = refl;
  minor_ne = refl;
  minor_ok = refl;
  headers_ok = tt;
  complete = inl (refl, refl);
}

abbrev the_handler : Handler (World the_env)
the_handler = request_handler the_env 11

abbrev rounds : List (List Bytes)
rounds = (codes "GET /Get?ns=test&set=demo&" ∷ codes "key=7 HTTP/1.0\r\n\r\n" ∷ []) ∷ []

talk-IsDefined_example :
    IsDefined (talk boost the_handler (idle 0 (request_to []) ok none) world rounds)
unfolding print
talk-IsDefined_example =
    talk-IsDefined the_env 11 (lookup_message ∷ []) rounds 0 (request_to []) ok none world readable
      named (([], refl), lookup_message-IsWire, tt)

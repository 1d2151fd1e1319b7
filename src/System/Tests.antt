-- ===== src/System/Tests.antt =====
-- The running program at a concrete run: a client sends bytes that are no request.
mod Ending
mod Asking
use as_proxyd.Aerospike.Model.{fixed}
use as_proxyd.Boost.Model.{boost}
use as_proxyd.Common.{
  true, Bytes, ◌≤◌, ◌++◌, length, is_dec, inl, ℕ, List, [], ◌∷◌, Option, none, some, ◌≡◌, refl,
  codes, pos, arith,
}
use as_proxyd.Connection.{handle_read, after_parse, refuse, read_some, write_all}
use as_proxyd.Connection.Life.{session, arrives, buffer_size}
use as_proxyd.Parser.{parse, consume, Machine, method_start, is_ctl, not_token, atoi}
use as_proxyd.Control.{Control, assign, lookup}
use as_proxyd.Env.{Env}
use as_proxyd.Jansson.Model.{jansson}
use as_proxyd.Reply.{Reply, ok, bad_request, stock_reply, to_buffers}
use as_proxyd.Reply.Wire.{send, read_reply}
use as_proxyd.Parser.Wire.{Message, print, IsWire}
use as_proxyd.Connection.Exchange.{keeps}
use as_proxyd.Request.{Header, Request, clear, get_header}
use as_proxyd.RequestHandler.{request_handler}
use as_proxyd.RequestHandler.Framing.{AllReadable}
use as_proxyd.RequestHandler.Printable.{AllNamed}
use as_proxyd.Server.{new_server, handle_accept, run}
use as_proxyd.System.{
  Live, System, session_at, resumed, resumed_with, world_of, accepted_as, Step, accepts, handles,
  Reach, here, next, started,
}
use as_proxyd.System.Answers.{waiting, afterwards, Goes, request_answered}
use as_proxyd.System.Sessions.{Follows, Reach-Follows}

abbrev the_env : Env
the_env = record {
  boost = boost;
  aerospike = fixed;
  jansson = jansson;
  shuffle = λ w s. s;
  gunzip = λ s. none;
  seconds_since = λ w. codes "0.5";
}

abbrev control : Control
control = record {
  port = pos 3000;
  timeout = pos 1000;
  thread_count = pos 2;
  server_list = codes "10.0.0.1" ∷ [];
  health_file = [];
  threads = [];
  objects = [];
}

abbrev ids : List ℕ
ids = 11 ∷ 12 ∷ []

abbrev blank : Request
blank = record {
  method = [];
  uri = [];
  http_version_major = 0;
  http_version_minor = 0;
  headers = [];
  content = [];
}

abbrev at_first : System the_env
at_first = started the_env ids control 5

abbrev connected : System the_env
connected = accepted_as the_env at_first 3 blank (stock_reply ok)

abbrev client : Live
client = record {
  conn = record {
    parser = record { state = method_start; body_bytes = 3; request = blank };
    reply = stock_reply ok;
    keepalive = none;
  };
  next = read_some;
}

abbrev refused : Option (System the_env)
refused = resumed the_env 0 connected (
    session (
      handle_read boost (request_handler the_env 12) client.conn
        (session_at the_env client connected).world (some (codes "("))))

readable : AllReadable the_env
readable c k w = (tt, (tt, tt))

named : AllNamed the_env
named c k w = (refl, (refl, tt))

reached : Reach the_env ids at_first connected
unfolding started new_server run
reached = next here (accepts refl refl 3 blank (stock_reply ok) refl) refl

abbrev poll : Message
poll = record {
  method = codes "GET";
  uri = codes "/status?";
  major = codes "1";
  minor = codes "1";
  headers = [];
  content = [];
}

poll-IsWire : IsWire poll
unfolding not_token is_ctl is_dec atoi get_header
poll-IsWire = record {
  major_fits = omega arith;
  minor_fits = omega arith;
  method_ne = refl;
  method_ok = refl;
  uri_ok = refl;
  major_ne = refl;
  major_ok = refl;
  minor_ne = refl;
  minor_ok = refl;
  headers_ok = tt;
  complete = inl (refl, refl);
}

is_running : connected.server.running ≡ true
unfolding started new_server run handle_accept
is_running = refl

is_waiting : lookup 0 connected.sessions ≡ some (waiting the_env ids 3 blank ok none)
unfolding started new_server run lookup assign clear
is_waiting = refl

length-print : length (print poll ++ []) ≤ buffer_size
unfolding print
length-print = omega arith

-- The client asks for the status, in the second thread.
request_answered_example :
    (t : System the_env) × (u : Live) × Goes the_env ids connected 0 u t
    × (rep : Reply) × (u.next ≡ write_all (to_buffers rep))
    × (hs : List Header) × (content : Bytes) × (read_reply (send (to_buffers rep))
        ≡ some (200, hs, content))
    × (p : Machine) × (x : System the_env) × Goes the_env ids t 0
        (afterwards the_env ids p rep (keeps boost (request_handler the_env 12) poll))
        x
request_answered_example =
    request_answered the_env ids 1 12 refl readable named connected 0 3 blank ok none is_running
      is_waiting poll [] poll-IsWire length-print

abbrev after_refusal : System the_env
after_refusal = resumed_with the_env 0 connected (record {
  conn = record client.conn { reply = stock_reply bad_request };
  world = world_of the_env connected;
  next = write_all (to_buffers (stock_reply bad_request));
})

refusal : Step the_env ids connected (some after_refusal)
unfolding started new_server run lookup handle_accept assign handle_read after_parse refuse parse
    consume not_token
refusal =
    handles refl 1 12 refl 0 client refl
      (arrives (session_at the_env client connected) (codes "(") refl (omega arith))

client_there : lookup 0 connected.sessions ≡ some client
unfolding started new_server run lookup assign
client_there = refl

Reach-Follows_example : Follows the_env ids connected 0 client (some after_refusal)
Reach-Follows_example =
    Reach-Follows the_env ids control 5 connected after_refusal reached refusal 0 client
      client_there

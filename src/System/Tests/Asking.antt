-- ===== src/System/Tests/Asking.antt =====
-- A client of the concrete run asks for a record.
use as_proxyd.Aerospike.Model.{fixed}
use as_proxyd.Aerospike.{AsRecord, AsValue}
use as_proxyd.AsObject.{AsObject, new_as_object}
use as_proxyd.Boost.{join}
use as_proxyd.Common.{
  suc, none, eq_ℤ, ◌≤◌, ◌++◌, length, is_dec, inl, List, [], ◌∷◌, some, ◌≡◌, refl, codes, pos,
  arith, Bytes, until_nul, to_lower,
}
use as_proxyd.Connection.{write_all}
use as_proxyd.Connection.Life.{buffer_size}
use as_proxyd.Control.{lookup, assign, initialize}
use as_proxyd.Jansson.{compact}
use as_proxyd.Jansson.Model.{jansson, Value}
use as_proxyd.Parser.{is_ctl, not_token, atoi}
use as_proxyd.Parser.Wire.{Message, print, IsWire}
use as_proxyd.Query.Print.{Part, pair}
use as_proxyd.Reply.{Reply, ok, to_buffers}
use as_proxyd.Reply.Wire.{send, read_reply}
use as_proxyd.Request.{Header, get_header}
use as_proxyd.RequestHandler.{World, took}
use as_proxyd.Server.{new_server, run, handle_accept}
use as_proxyd.System.{Live, System, started}
use as_proxyd.System.Answers.{Goes}
use as_proxyd.System.Records.{Shows, record_answered}
use as_proxyd.System.Tests.{the_env, ids, blank, connected, readable, named, is_running, is_waiting}
use as_proxyd.Url.Escapes.{all-Escapes}

abbrev the_parts : List Part
the_parts =
    pair (codes "ns") (codes "test")
    ∷ pair (codes "set") (codes "demo")
    ∷ pair (codes "key") (codes "7")
    ∷ []

abbrev question : Message
question = record {
  method = codes "GET";
  uri = codes "/Get?ns=test&set=demo&key=7";
  major = codes "1";
  minor = codes "1";
  headers = [];
  content = [];
}

question-IsWire : IsWire question
unfolding not_token is_ctl is_dec atoi get_header
question-IsWire = record {
  major_fits = omega arith;
  minor_fits = omega arith;
  method_ne = refl;
  method_ok = refl;
  uri_ok = refl;
  major_ne = refl;
  major_ok = refl;
  minor_ne = refl;
  minor_ok = refl;
  headers_ok = tt;
  complete = inl (refl, refl);
}

length-print : length (print question ++ []) ≤ buffer_size
unfolding print
length-print = omega arith

-- The client of the second thread.
abbrev second : AsObject
second = (new_as_object fixed (codes "10.0.0.1" ∷ []) (pos 3000) (pos 1000) 5).0

second_there : lookup 12 connected.server.control.objects ≡ some second
unfolding started new_server run lookup handle_accept initialize assign new_as_object
second_there = refl

-- What each key of this cluster has.
abbrev stored : AsRecord
stored = record {
  bins =
      (codes "age", AsValue.integer (pos 7))
      ∷ (codes "tag", AsValue.string (some (codes "!x")))
      ∷ [];
  gen = 1;
  ttl = 60;
}

-- "/Get?ns=test&set=demo&key=7"
record_answered_example :
    (t : System the_env) × (u : Live) × Goes the_env ids connected 0 u t
    × (t.cluster ≡ suc connected.cluster)
    × (rep : Reply) × (u.next ≡ write_all (to_buffers rep))
    × (hs : List Header) × (text : Bytes) × (read_reply (send (to_buffers rep))
        ≡ some (200, hs, until_nul text))
    × (root : Value) × (w : World the_env) × (jansson.json_dumps compact (took the_env root w)
        ≡ some text)
    × Shows the_env 12 stored (suc connected.cluster) (root, w)
unfolding to_lower join new_as_object eq_ℤ
record_answered_example =
    record_answered the_env ids 1 12 refl readable named connected 0 3 blank ok none is_running
      is_waiting question [] question-IsWire length-print (codes "/Get") the_parts refl refl
      ((refl, refl, refl), ((refl, refl, refl), ((refl, refl, refl), tt)))
      (all-Escapes (codes "/Get?ns=test&set=demo&key=7") refl) second stored (suc connected.cluster)
      second_there refl refl

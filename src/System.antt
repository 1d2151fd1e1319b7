-- ===== src/System.antt =====
-- The whole program while it runs: the server (src/server.cpp), the connections that it has started
-- (src/connection.cpp), served by the request handler (src/request_handler.cpp), the clients of the
-- cluster (include/as_control.hpp) and the cluster, with everything that can happen next.
pub mod Placed
pub mod Invariant
pub mod Safety
pub mod Answers
pub mod Records
pub mod Sessions
pub mod Shutdown
mod Tests
use as_proxyd.Common.{ℕ, true, false, List, [], Option, none, some, ◌≡◌, get_elem?}
use as_proxyd.Connection.{Connection, Next}
use as_proxyd.Connection.Life.{Session, opened}
use as_proxyd.Connection.Life
use as_proxyd.Control.{Control, delete_control, lookup, assign}
use as_proxyd.Env.{Env}
use as_proxyd.Reply.{Reply}
use as_proxyd.Request.{Request}
use as_proxyd.RequestHandler.{World, request_handler}
use as_proxyd.Server.{Server, new_server, handle_accept, handle_stop, handle_timer, run}

-- A connection and what it waits for.
pub record Live : Type 0 where
  pub conn : Connection
  pub next : Next

module _ (env : Env) where
  -- The connections go by their numbers.
  pub record System : Type 0 where
    pub server : Server
    pub cluster : env.aerospike.Cluster
    pub sessions : List (ℕ × Live)

  -- What the request handler sees of it, and a connection's session.
  abbrev pub world_of : System → World env
  world_of s = record { control = s.server.control; cluster = s.cluster }

  abbrev pub session_at : Live → System → Session (World env)
  session_at l s = record { conn = l.conn; world = world_of s; next = l.next }

  -- A handler of connection `n` has run.
  abbrev pub resumed_with : ℕ → System → Session (World env) → System
  resumed_with n s t = record s {
    server = record s.server { control = t.world.control };
    cluster = t.world.cluster;
    sessions = assign n (record { conn = t.conn; next = t.next }) s.sessions;
  }

  abbrev pub resumed : ℕ → System → Option (Session (World env)) → Option System
  resumed n s none = none
  resumed n s (some t) = some (resumed_with n s t)

  -- A client is accepted: `new_connection_` starts to read. What its members hold is left open, but
  -- for the strings and vectors of the request, which are empty.
  abbrev pub accepted_as : System → ℕ → Request → Reply → System
  accepted_as s n r rep =
      let t = opened n r rep (world_of s) in
      record s {
        server = handle_accept false s.server;
        sessions =
            assign s.server.new_connection (record { conn = t.conn; next = t.next }) s.sessions;
      }

  -- The handlers run in any order, those of connections in the threads `ids` of the pool, and the
  -- cluster may change at any time. `none` is undefined behaviour.
  pub data Step (ids : List ℕ) (s : System) : Option System → Type 0 where
    timer :
        s.server.running ≡ true
        → s.server.timer ≡ true
        → Step ids s (
            some (record s {
              server = (handle_timer env.aerospike s.server s.cluster).0;
              cluster = (handle_timer env.aerospike s.server s.cluster).1;
            }))
    accept_fails :
        s.server.running ≡ true
        → s.server.accepting ≡ true
        → Step ids s (some (record s { server = handle_accept true s.server }))
    accepts :
        s.server.running ≡ true
        → s.server.accepting ≡ true
        → (n : ℕ) (r : Request) (rep : Reply) → r.content ≡ []
        → Step ids s (some (accepted_as s n r rep))
    stop : s.server.running ≡ true → Step ids s (some (record s { server = handle_stop s.server }))
    handles :
        s.server.running ≡ true
        → (i self : ℕ) → get_elem? ids i ≡ some self
        → (n : ℕ) (l : Live) → lookup n s.sessions ≡ some l
        → {o : Option (Session (World env))}
        → Life.Step env.boost (request_handler env self) (session_at l s) o
        → Step ids s (resumed n s o)
    elsewhere : (w : env.aerospike.Cluster) → Step ids s (some (record s { cluster = w }))

  pub data Reach (ids : List ℕ) (s : System) : System → Type 0 where
    here : Reach ids s s
    next :
        {t u : System} {o : Option System}
        → Reach ids s t
        → Step ids t o
        → o ≡ some u
        → Reach ids s u

  -- `main` behind the start of the server: the pool runs, and nobody is connected.
  unfoldable pub started : List ℕ → Control → env.aerospike.Cluster → System
  started ids c w =
      let (s, w') = run env.aerospike env.shuffle ids (new_server c) w in
      record { server = s; cluster = w'; sessions = [] }

  -- `main` behind `run`, which returns when the threads have ended: `delete asOP`.
  unfoldable pub shut_down : System → Option env.aerospike.Cluster
  unfolding delete_control
  shut_down s = delete_control env.aerospike s.server.control s.cluster

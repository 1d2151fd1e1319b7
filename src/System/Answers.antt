-- ===== src/System/Answers.antt =====
-- What a client of the running program gets.
use as_proxyd.Common.{
  ℕ, ◌≤◌, Bool, true, false, List, ◌++◌, Option, some, ◌≡◌, refl, ◌∙◌, ap, Bytes, length, get_elem?,
  until_nul,
}
use as_proxyd.Connection.{
  Connection, Next, Handler, read_some, write_all, shut_down, answered, handle_read, handle_write,
}
use as_proxyd.Connection.Exchange.{idle, keeps, handle_read-message, handle_write-answered}
use as_proxyd.Connection.Life.{session, arrives, write_ends, buffer_size}
use as_proxyd.Control.{lookup}
use as_proxyd.Control.Pool.{lookup-assign_same}
use as_proxyd.Env.{Env}
use as_proxyd.Parser.{Machine}
use as_proxyd.Parser.Wire.{Message, print, request_of, IsWire}
use as_proxyd.Reply.{Reply, Status, ok, to_buffers}
use as_proxyd.Reply.Wire.{send, read_reply}
use as_proxyd.Request.{Header, Request}
use as_proxyd.RequestHandler.{World, request_handler}
use as_proxyd.RequestHandler.Framing.{AllReadable, handle_request-read_reply}
use as_proxyd.RequestHandler.Printable.{AllNamed}
use as_proxyd.System.{Live, System, world_of, session_at, resumed, resumed_with, Step, handles}

module _ (env : Env) (ids : List ℕ) where
  -- A connection that waits for a request.
  abbrev pub waiting : ℕ → Request → Status → Option Bool → Live
  waiting v r st k = record { conn = idle v r st k; next = read_some }

  -- A connection whose reply has been written.
  abbrev pub afterwards : Machine → Reply → Bool → Live
  afterwards p rep true = waiting p.body_bytes p.request rep.status (some true)
  afterwards p rep false = record {
    conn = record { parser = p; reply = rep; keepalive = some false };
    next = shut_down;
  }

  -- A step of the connection `n` that leaves it as `u`.
  abbrev pub Goes : System env → ℕ → Live → System env → Type 0
  Goes s n u t =
      Step env ids s (some t) × (lookup n t.sessions ≡ some u) × (t.server.running ≡ true)

  module _ (i self : ℕ) (g : get_elem? ids i ≡ some self) where
    pub read_step :
        (s : System env) (n : ℕ) (l : Live) (bytes : Bytes) (c : Connection) (w : World env)
        (x : Next)
        → s.server.running ≡ true
        → lookup n s.sessions ≡ some l
        → l.next ≡ read_some
        → length bytes ≤ buffer_size
        → handle_read env.boost (request_handler env self) l.conn (world_of env s) (some bytes)
          ≡ some (c, w, x)
        → Goes s n
            (record { conn = c; next = x })
            (resumed_with env n s (record { conn = c; world = w; next = x }))
    read_step s n l bytes c w x r e q short h =
        let p : Step env ids s (
            resumed env n s (
              session (
                handle_read env.boost (request_handler env self) l.conn (world_of env s)
                  (some bytes)))) =
          handles r i self g n l e (arrives (session_at env l s) bytes q short) in
        (rw h at p, lookup-assign_same n _ s.sessions, r)

    write_step :
        (s : System env) (n : ℕ) (l : Live) (bufs : List Bytes) (c : Connection) (w : World env)
        (x : Next)
        → s.server.running ≡ true
        → lookup n s.sessions ≡ some l
        → l.next ≡ write_all bufs
        → handle_write env.boost (request_handler env self) l.conn (world_of env s) false
          ≡ some (c, w, x)
        → Goes s n
            (record { conn = c; next = x })
            (resumed_with env n s (record { conn = c; world = w; next = x }))
    write_step s n l bufs c w x r e q h =
        let p : Step env ids s (
            resumed env n s (
              session (
                handle_write env.boost (request_handler env self) l.conn (world_of env s) false))) =
          handles r i self g n l e (write_ends (session_at env l s) bufs false q) in
        (rw h at p, lookup-assign_same n _ s.sessions, r)

    -- The end of the write of a reply.
    written_step :
        (s : System env) (n : ℕ) (p : Machine) (rep : Reply) (k : Bool)
        → s.server.running ≡ true
        → lookup n s.sessions
          ≡ some (record {
            conn = record { parser = p; reply = rep; keepalive = some k };
            next = write_all (to_buffers rep);
          })
        → (t : System env) × Goes s n (afterwards p rep k) t
    written_step s n p rep true r e = (
      _,
      write_step s n _ (to_buffers rep) _ (world_of env s) read_some r e refl
          (handle_write-answered env.boost (request_handler env self) p rep true (world_of env s)),
    )
    written_step s n p rep false r e = (
      _,
      write_step s n _ (to_buffers rep) _ (world_of env s) shut_down r e refl
          (handle_write-answered env.boost (request_handler env self) p rep false (world_of env s)),
    )

    -- While the server runs, a request of the grammar that reaches a waiting connection in one read, with
    -- anything behind it, is answered in two steps of that connection, in any thread of the pool and
    -- whatever the rest of the program has come to: behind the first the connection writes a reply that
    -- the client reads as status 200, and behind the second it waits for the next request, or is shut
    -- down if the request does not keep it. Each value of bytes in the cluster's records has to hold a
    -- NUL, and each bin name there to be UTF-8.
    pub request_answered :
        AllReadable env
        → AllNamed env
        → (s : System env) (n : ℕ) (v : ℕ) (r : Request) (st : Status) (k : Option Bool)
        → s.server.running ≡ true
        → lookup n s.sessions ≡ some (waiting v r st k)
        → (m : Message) (rest : Bytes) → IsWire m
        → length (print m ++ rest) ≤ buffer_size
        → (t : System env) × (u : Live) × Goes s n u t
          × (rep : Reply) × (u.next ≡ write_all (to_buffers rep))
          × (hs : List Header) × (content : Bytes) × (read_reply (send (to_buffers rep))
              ≡ some (200, hs, content))
          × (p : Machine) × (x : System env) × Goes t n
              (afterwards p rep (keeps env.boost (request_handler env self) m))
              x
    request_answered readable named s n v r st k running e m rest wire short =
        let h : Handler (World env) = request_handler env self in
        let keep = keeps env.boost h m in
        let (root, w, _, text, _, rep, q, hs, shown, _, _) =
          handle_request-read_reply env self (request_of m) ok keep (world_of env s) readable
            named in
        let (p, a) = handle_read-message env.boost h m rest v r st k (world_of env s) wire in
        let go =
          read_step s n (waiting v r st k) (print m ++ rest) _ w (write_all (to_buffers rep))
            running e refl short
            (a ∙ ap (answered env.boost h (record (idle v r st k) { parser = p }) keep) q) in
        let (x, back) = written_step _ n p rep keep running (lookup-assign_same n _ s.sessions) in
        (_, _, go, rep, refl, hs, until_nul text, shown, p, x, back)

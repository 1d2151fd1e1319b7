-- ===== src/Connection/World.antt =====
-- What the handlers of a connection (src/connection.cpp) do to the world: they touch it through the
-- request handler alone.
use as_proxyd.Boost.{Boost}
use as_proxyd.Common.{Bool, true, false, Option, none, some, ◌≡◌, refl}
use as_proxyd.Connection.{
  Handler, Connection, answer, after_parse, answered, handle_read, handle_write,
}
use as_proxyd.Connection.Life.{Session, session, Step, arrives, read_fails, write_ends}
use as_proxyd.Parser.{Parsed, accepted, rejected, indeterminate, parse}
use as_proxyd.Reply.{Reply}
use as_proxyd.Request.{Request}

module _ {W : Type 0} (P : W → Type 0) where
  -- A result, if there is one, that leaves a good world.
  abbrev pub KeptReply : Option (Reply × W) → Type 0
  KeptReply none = Unit
  KeptReply (some (rep, w)) = P w

  abbrev pub Kept : Option (Session W) → Type 0
  Kept none = Unit
  Kept (some s) = P s.world

  module _ (b : Boost) (h : Handler W)
      (keeps : (r : Request) (rep : Reply) (k : Bool) (w : W)
        → P w
        → KeptReply (h.handle r rep k w)) where
    answered-Kept :
        (c : Connection) (k : Bool) (o : Option (Reply × W))
        → KeptReply o
        → Kept (session (answered b h c k o))
    answered-Kept c k none v = tt
    answered-Kept c k (some (rep, w)) v = v

    after_parse-Kept :
        (c : Connection) (w : W) (p : Parsed) → P w → Kept (session (after_parse b h c w p))
    unfolding after_parse
    after_parse-Kept c w none v = tt
    after_parse-Kept c w (some (accepted, rest, m)) v =
        unfold answer in
        answered-Kept (record c { parser = m }) _ (h.handle m.request c.reply _ w)
          (keeps m.request c.reply _ w v)
    after_parse-Kept c w (some (rejected, rest, m)) v = v
    after_parse-Kept c w (some (indeterminate, rest, m)) v = v

    handle_write-Kept :
        (c : Connection) (w : W) (k : Option Bool) (fails : Bool)
        → c.keepalive ≡ k
        → P w
        → Kept (session (handle_write b h c w fails))
    unfolding handle_write
    handle_write-Kept c w k true e v = v
    handle_write-Kept c w none false e v = rw (e, handle_write) tt
    handle_write-Kept c w (some true) false e v = rw (e, handle_write) v
    handle_write-Kept c w (some false) false e v = rw (e, handle_write) v

    -- What the request handler keeps is kept by whatever happens to the connection.
    pub Step-Kept : {s : Session W} {o : Option (Session W)} → Step b h s o → P s.world → Kept o
    unfolding handle_read
    Step-Kept (arrives s bytes q n) v =
        after_parse-Kept s.conn s.world (parse s.conn.parser bytes) v
    Step-Kept (read_fails s q) v = v
    Step-Kept (write_ends s bufs fails q) v =
        handle_write-Kept s.conn s.world s.conn.keepalive fails refl v

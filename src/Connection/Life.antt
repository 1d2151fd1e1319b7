-- ===== src/Connection/Life.antt =====
-- The life of a connection (src/connection.cpp) as a step relation: the socket decides what happens
-- next, and one operation at a time is under way.
use as_proxyd.Boost.{Boost}
use as_proxyd.Common.{
  ℕ, ◌≤◌, Bool, true, false, List, [], Option, none, some, ◌≡◌, ◌≢◌, refl, Bytes, length,
}
use as_proxyd.Connection.{
  Handler, Connection, Next, read_some, write_all, reset_all, answer, after_parse, answered,
  handle_read, handle_write,
}
use as_proxyd.Parser.{
  Parsed, Machine, method_start, accepted, rejected, indeterminate, parse, reset,
}
use as_proxyd.Parser.Safety.{Inv, OverflowsIn, KeepsParsed, parse-KeepsParsed, reset-Inv}
use as_proxyd.Reply.{Reply, bad_request, stock_reply, to_buffers}
use as_proxyd.Request.{Request, clear}

-- The capacity of `buffer_`.
abbrev pub buffer_size : ℕ
buffer_size = 8192

pub record Session (W : Type 0) : Type 0 where
  pub conn : Connection
  pub world : W
  pub next : Next

-- The session after a handler, or `none` if that was undefined.
abbrev pub session : {W : Type 0} → Option (Connection × W × Next) → Option (Session W)
session none = none
session (some (c, w, n)) = some (record { conn = c; world = w; next = n })

module _ {W : Type 0} where
  -- While it reads, the parser is in a state that the code can go on from. While it writes with
  -- nothing in `keepalive_` yet, it writes the reply to a bad request.
  pub record IsSound (s : Session W) : Type 0 where
    pub parsing : s.next ≡ read_some → Inv s.conn.parser
    pub refusing :
        (bufs : List Bytes)
        → s.next ≡ write_all bufs
        → s.conn.keepalive ≡ none
        → bufs ≡ to_buffers (stock_reply bad_request)

  -- What a step comes to, with what makes it undefined as a parameter.
  abbrev pub Outcome : Type 0 → Option (Session W) → Type 0
  Outcome U none = U
  Outcome U (some t) = IsSound t

  -- A new connection reads, has received nothing, and has nothing in `keepalive_`.
  abbrev pub opened : ℕ → Request → Reply → W → Session W
  opened n r rep w = record {
    conn = record {
      parser = record { state = method_start; body_bytes = n; request = r };
      reply = rep;
      keepalive = none;
    };
    world = w;
    next = read_some;
  }

  pub opened-IsSound :
      (n : ℕ) (r : Request) (rep : Reply) (w : W) → r.content ≡ [] → IsSound (opened n r rep w)
  unfolding reset
  opened-IsSound n r rep w e = record {
    parsing = λ q. reset-Inv (record { state = method_start; body_bytes = n; request = r }) e;
    refusing = λ bufs q f. cc;
  }

module _ {W : Type 0} (b : Boost) (h : Handler W) where
  pub data Step : Session W → Option (Session W) → Type 0 where
    arrives :
        (s : Session W) (bytes : Bytes)
        → s.next ≡ read_some
        → length bytes ≤ buffer_size
        → Step s (session (handle_read b h s.conn s.world (some bytes)))
    read_fails :
        (s : Session W)
        → s.next ≡ read_some
        → Step s (session (handle_read b h s.conn s.world none))
    write_ends :
        (s : Session W) (bufs : List Bytes) (fails : Bool)
        → s.next ≡ write_all bufs
        → Step s (session (handle_write b h s.conn s.world fails))

  -- The undefined steps: a read of a version that an `int` has no room for, and the end of the write
  -- that answers a bad request where no request was answered before.
  abbrev pub Undefined : {s : Session W} {u : Option (Session W)} → Step s u → Type 0
  Undefined (arrives s bytes q n) = OverflowsIn s.conn.parser bytes
  Undefined (read_fails s q) = ⊥
  Undefined (write_ends s bufs fails q) =
      (fails ≡ false) × (s.conn.keepalive ≡ none) × (bufs ≡ to_buffers (stock_reply bad_request))

  pub data Reach (s : Session W) : Session W → Type 0 where
    here : Reach s s
    then :
        {t u : Session W} {o : Option (Session W)} → Reach s t → Step t o → o ≡ some u → Reach s u

  module _
      (total : (r : Request) (rep : Reply) (k : Bool) (w : W) → h.handle r rep k w ≢ none) where
    answered-Outcome :
        (c : Connection) (k : Bool) (o : Option (Reply × W))
        → o ≢ none
        → (U : Type 0) → Outcome U (session (answered b h c k o))
    answered-Outcome c k none e U = absurd (e refl)
    answered-Outcome c k (some (rep, w)) e U = record {
      parsing = λ q. cc;
      refusing = λ bufs q e. cc;
    }

    answer-Outcome : (c : Connection) (w : W) (U : Type 0) → Outcome U (session (answer b h c w))
    unfolding answer
    answer-Outcome c w U =
        answered-Outcome c _ (h.handle c.parser.request c.reply _ w)
          (total c.parser.request c.reply _ w) U

    after_parse-Outcome :
        (c : Connection) (w : W) (m : Machine) (xs : Bytes) (p : Parsed)
        → KeepsParsed m xs p
        → Outcome (OverflowsIn m xs) (session (after_parse b h c w p))
    unfolding after_parse
    after_parse-Outcome c w n xs none k = k
    after_parse-Outcome c w n xs (some (accepted, rest, m)) k =
        answer-Outcome (record c { parser = m }) w _
    after_parse-Outcome c w n xs (some (rejected, rest, m)) k = record {
      parsing = λ q. cc;
      refusing = λ bufs q e. cc;
    }
    after_parse-Outcome c w n xs (some (indeterminate, rest, m)) k = record {
      parsing = λ q. k.0;
      refusing = λ bufs q e. cc;
    }

    -- What is read next after a write is parsed from the start.
    reset_all-Inv : (c : Connection) → Inv (reset_all c).parser
    unfolding reset_all clear
    reset_all-Inv c = reset-Inv _ refl

    handle_write-Outcome :
        (s : Session W) (k : Option Bool) (bufs : List Bytes) (fails : Bool)
        → s.conn.keepalive ≡ k
        → s.next ≡ write_all bufs
        → IsSound s
        → Outcome
            ((fails ≡ false)
              × (s.conn.keepalive ≡ none)
              × (bufs ≡ to_buffers (stock_reply bad_request)))
            (session (handle_write b h s.conn s.world fails))
    unfolding handle_write
    handle_write-Outcome s k bufs true e q v = record { parsing = λ p. cc; refusing = λ bs p f. cc }
    handle_write-Outcome s none bufs false e q v =
        rw (e, handle_write) (refl, refl, v.refusing bufs q e)
    handle_write-Outcome s (some true) bufs false e q v =
        rw (e, handle_write)
          (record { parsing = λ p. reset_all-Inv s.conn; refusing = λ bs p f. cc })
    handle_write-Outcome s (some false) bufs false e q v =
        rw (e, handle_write) (record { parsing = λ p. cc; refusing = λ bs p f. cc })

    pub step-Outcome :
        {s : Session W} {u : Option (Session W)} (p : Step s u)
        → IsSound s
        → Outcome (Undefined p) u
    unfolding handle_read
    step-Outcome (arrives s bytes q n) v =
        after_parse-Outcome s.conn s.world s.conn.parser bytes (parse s.conn.parser bytes)
          (parse-KeepsParsed s.conn.parser bytes (v.parsing q))
    step-Outcome (read_fails s q) v = record { parsing = λ p. cc; refusing = λ bs p f. cc }
    step-Outcome (write_ends s bufs fails q) v =
        handle_write-Outcome s s.conn.keepalive bufs fails refl q v

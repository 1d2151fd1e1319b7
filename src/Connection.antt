-- ===== src/Connection.antt =====
-- src/connection.cpp and include/connection.hpp: one client's connection, from the bytes that its
-- socket delivers to the buffers that are written to it. The handlers of a connection run one at a
-- time, since they are wrapped by its strand.
pub mod Reads
pub mod Exchange
pub mod Life
pub mod World
pub mod Refusal
mod Tests
use as_proxyd.Boost.{Boost}
use as_proxyd.Common.{
  ℕ, Bool, true, false, List, [], ◌∷◌, ◌++◌, Option, none, some, ◌≡◌, if◌then◌else◌, Bytes,
}
use as_proxyd.Parser.{Machine, Parsed, accepted, rejected, indeterminate, parse, reset}
use as_proxyd.Reply.{Reply, Status, ok, bad_request, stock_reply, to_buffers}
use as_proxyd.Reply
use as_proxyd.Request.{Request, want_keepalive}
use as_proxyd.Request

-- `request_handler::handle_request` as the connection sees it: from the request, the reply to fill
-- and the wish to keep the connection, over a world `W`; `none` is undefined behaviour. Of a cleared
-- reply it does not read the status, the one thing that `reply::clear` leaves.
pub record Handler (W : Type 0) : Type 0 where
  pub handle : Request → Reply → Bool → W → Option (Reply × W)
  pub handle-status :
      (r : Request) (s t : Status) (k : Bool) (w : W)
      → handle r (stock_reply s) k w ≡ handle r (stock_reply t) k w

-- `request_` is the request inside the parser's machine. `keepalive_` is `none` while nothing has
-- been stored in it: no constructor does.
pub record Connection : Type 0 where
  pub parser : Machine
  pub reply : Reply
  pub keepalive : Option Bool

-- What a handler leaves to the `io_service`: a read, a write, nothing after a shutdown of the
-- socket, or nothing at all, and then the connection is destroyed.
pub data Next : Type 0 where
  read_some : Next
  write_all : List Bytes → Next
  shut_down : Next
  destroyed : Next

-- `base_connection::reset`.
unfoldable pub reset_all : Connection → Connection
reset_all c = record c {
  parser = reset (record c.parser { request = Request.clear c.parser.request });
  reply = Reply.clear c.reply;
}

module _ {W : Type 0} (b : Boost) (h : Handler W) where
  abbrev pub Handled : Type 0
  Handled = Option (Connection × W × Next)

  -- The handler has filled the reply; it is about to be written.
  abbrev pub answered : Connection → Bool → Option (Reply × W) → Handled
  answered c k none = none
  answered c k (some (rep, w)) =
      some (record c { reply = rep; keepalive = some k }, w, write_all (to_buffers rep))

  -- `handle_read` behind a complete request.
  unfoldable pub answer : Connection → W → Handled
  answer c w =
      let k = want_keepalive b.to_lower_copy c.parser.request in
      answered c k (h.handle c.parser.request c.reply k w)

  -- `handle_read` behind bytes that are no request; `keepalive_` is not touched.
  unfoldable pub refuse : Connection → W → Handled
  refuse c w =
      let rep = stock_reply bad_request in
      some (record c { reply = rep }, w, write_all (to_buffers rep))

  -- The three ways on from `parse`, whose second result `handle_read` ignores.
  unfoldable pub after_parse : Connection → W → Parsed → Handled
  unfolding answer refuse
  after_parse c w none = none
  after_parse c w (some (accepted, rest, m)) = answer (record c { parser = m }) w
  after_parse c w (some (rejected, rest, m)) = refuse (record c { parser = m }) w
  after_parse c w (some (indeterminate, rest, m)) = some (record c { parser = m }, w, read_some)

  -- `handle_read`: the bytes that were read, or `none` for an error.
  unfoldable pub handle_read : Connection → W → Option Bytes → Handled
  unfolding after_parse
  handle_read c w none = some (c, w, destroyed)
  handle_read c w (some bytes) = after_parse c w (parse c.parser bytes)

  -- `handle_write`; the flag says that the write failed. To test `keepalive_` before anything was
  -- stored in it is undefined.
  unfoldable pub handle_write : Connection → W → Bool → Handled
  unfolding reset_all
  handle_write c w true = some (c, w, destroyed)
  handle_write c w false = elim c.keepalive [
    | none ↦ none
    | some k ↦ if k then some (reset_all c, w, read_some) else some (c, w, shut_down)
  ]

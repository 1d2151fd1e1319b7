-- ===== src/Connection/Exchange.antt =====
-- Whole exchanges on a connection (src/connection.cpp): a request that arrives in pieces, its
-- answer, and the next request on the same connection.
use as_proxyd.Boost.{Boost}
use as_proxyd.Common.{
  ℕ, Bool, true, false, List, [], ◌∷◌, ◌++◌, Option, none, some, ◌≡◌, refl, ap, ◌∙◌, if◌then◌else◌,
  Bytes,
}
use as_proxyd.Connection.{
  Handler, Connection, Next, read_some, write_all, shut_down, destroyed, Handled, answer,
  after_parse, answered, handle_read, handle_write,
}
use as_proxyd.Parser.{Machine, method_start, parse, reset}
use as_proxyd.Parser.RoundTrip.{parse-print}
use as_proxyd.Parser.Wire.{Message, print, request_of, IsWire}
use as_proxyd.Reply.{Reply, Status, ok, bad_request, stock_reply, to_buffers}
use as_proxyd.Reply.Wire.{send}
use as_proxyd.Reply
use as_proxyd.Request.{Request, want_keepalive, clear}
use as_proxyd.Connection.Reads.{concat, receive, receive-concat}

-- A connection between two requests: the parser is reset, and the request and the reply are
-- cleared. The status and the two machine words keep what they had.
abbrev pub idle : ℕ → Request → Status → Option Bool → Connection
idle n r s k = record {
  parser = record { state = method_start; body_bytes = n; request = clear r };
  reply = stock_reply s;
  keepalive = k;
}

module _ {W : Type 0} (b : Boost) (h : Handler W) where
  abbrev pub keeps : Message → Bool
  keeps m = want_keepalive b.to_lower_copy (request_of m)

  abbrev pub respond : Message → W → Option (Reply × W)
  respond m w = h.handle (request_of m) (stock_reply ok) (keeps m) w

  answer-idle :
      (m : Message) (n : Machine) (v : ℕ) (r : Request) (s : Status) (k : Option Bool) (w : W)
      → n.request ≡ request_of m
      → answer b h (record (idle v r s k) { parser = n }) w
        ≡ answered b h (record (idle v r s k) { parser = n }) (keeps m) (respond m w)
  unfolding answer
  answer-idle m n v r s k w e =
      let c : Connection = record (idle v r s k) { parser = n } in
      ap
        (λ q.
          answered b h c (want_keepalive b.to_lower_copy q)
            (h.handle q (stock_reply s) (want_keepalive b.to_lower_copy q) w))
        e
      ∙ ap (answered b h c (keeps m)) (h.handle-status (request_of m) s ok (keeps m) w)

  -- A message of the grammar that reaches an idle connection, in any pieces and with anything
  -- behind it, is answered.
  receive-message :
      (m : Message) (xs : List Bytes) (rest : Bytes) (v : ℕ) (r : Request) (s : Status)
      (k : Option Bool) (w : W)
      → IsWire m
      → concat xs ≡ print m ++ rest
      → (n : Machine) × (receive b h (idle v r s k) w xs
          ≡ answered b h (record (idle v r s k) { parser = n }) (keeps m) (respond m w))
  unfolding after_parse
  receive-message m xs rest v r s k w wire e =
      let (n, p, q) = parse-print m rest v r wire in
      (
        n,
        receive-concat b h xs (idle v r s k) w
            ∙ ap (after_parse b h (idle v r s k) w) (ap (parse (idle v r s k).parser) e ∙ p)
            ∙ answer-idle m n v r s k w q,
      )

  -- The same, in one read.
  pub handle_read-message :
      (m : Message) (rest : Bytes) (v : ℕ) (r : Request) (s : Status) (k : Option Bool) (w : W)
      → IsWire m
      → (n : Machine) × (handle_read b h (idle v r s k) w (some (print m ++ rest))
          ≡ answered b h (record (idle v r s k) { parser = n }) (keeps m) (respond m w))
  unfolding handle_read after_parse
  handle_read-message m rest v r s k w wire =
      let (n, p, q) = parse-print m rest v r wire in
      (n, ap (after_parse b h (idle v r s k) w) p ∙ answer-idle m n v r s k w q)

  -- What a run of a connection shows: the bytes that it sends, the world and what comes next.
  abbrev pub Shown : Type 0
  Shown = Option (Bytes × W × Next)

  abbrev pub sending : Bytes → Shown → Shown
  sending out none = none
  sending out (some (more, w, n)) = some (out ++ more, w, n)

  -- After a write: the connection reads on, or is done.
  abbrev pub resume : Handled b h → (Connection → W → Shown) → Shown
  resume none loop = none
  resume (some (c, w, read_some)) loop = loop c w
  resume (some (c, w, write_all bufs)) loop = some ([], w, write_all bufs)
  resume (some (c, w, shut_down)) loop = some ([], w, shut_down)
  resume (some (c, w, destroyed)) loop = some ([], w, destroyed)

  -- Once a request has been received, its answer is written, with success.
  abbrev pub written : Handled b h → (Connection → W → Shown) → Shown
  written none loop = none
  written (some (c, w, read_some)) loop = some ([], w, read_some)
  written (some (c, w, write_all bufs)) loop =
      sending (send bufs) (resume (handle_write b h c w false) loop)
  written (some (c, w, shut_down)) loop = some ([], w, shut_down)
  written (some (c, w, destroyed)) loop = some ([], w, destroyed)

  -- A client that sends its next bytes when it has read an answer.
  unfoldable pub talk : Connection → W → List (List Bytes) → Shown
  talk c w [] = some ([], w, read_some)
  talk c w (xs ∷ rounds) = written (receive b h c w xs) (λ c' w'. talk c' w' rounds)

  -- What the client is to see: the handler's replies in the order of the requests, up to the first
  -- request that does not keep the connection; behind that the socket is shut down.
  abbrev pub then_speak : Bool → Option (Reply × W) → (W → Shown) → Shown
  then_speak k none loop = none
  then_speak true (some (rep, w)) loop = sending (send (to_buffers rep)) (loop w)
  then_speak false (some (rep, w)) loop = sending (send (to_buffers rep)) (some ([], w, shut_down))

  unfoldable pub speak : W → List Message → Shown
  speak w [] = some ([], w, read_some)
  speak w (m ∷ ms) = then_speak (keeps m) (respond m w) (λ w'. speak w' ms)

  -- Round by round, the reads hold one message, and perhaps more behind it.
  abbrev pub Delivers : List (List Bytes) → List Message → Type 0
  Delivers [] [] = Unit
  Delivers [] (m ∷ ms) = ⊥
  Delivers (xs ∷ rounds) [] = ⊥
  Delivers (xs ∷ rounds) (m ∷ ms) =
      ((rest : Bytes) × (concat xs ≡ print m ++ rest)) × IsWire m × Delivers rounds ms

  pub handle_write-answered :
      (n : Machine) (rep : Reply) (k : Bool) (w : W)
      → handle_write b h (record { parser = n; reply = rep; keepalive = some k }) w false ≡ (
          if k
          then some (idle n.body_bytes n.request rep.status (some k), w, read_some)
          else some (record { parser = n; reply = rep; keepalive = some k }, w, shut_down))
  unfolding handle_write reset Reply.clear stock_reply clear
  handle_write-answered n rep k w = refl

  written-answered :
      (n : Machine) (c : Connection) (k : Bool) (o : Option (Reply × W))
      (loop : Connection → W → Shown) (spec : W → Shown)
      → ((v : ℕ) (r : Request) (s : Status) (w : W) → loop (idle v r s (some k)) w ≡ spec w)
      → written (answered b h (record c { parser = n }) k o) loop ≡ then_speak k o spec
  written-answered n c k none loop spec ih = refl
  written-answered n c true (some (rep, w)) loop spec ih =
      ap (λ x. sending (send (to_buffers rep)) (resume x loop)) (handle_write-answered n rep true w)
      ∙ ap (sending (send (to_buffers rep))) (ih n.body_bytes n.request rep.status w)
  written-answered n c false (some (rep, w)) loop spec ih =
      ap (λ x. sending (send (to_buffers rep)) (resume x loop))
        (handle_write-answered n rep false w)

  -- Over any number of requests of the grammar, whose version numbers an `int` has room for, each cut into reads in any way, the client of an
  -- idle connection sees the replies that the handler gives to these very requests, in their order
  -- and over one world, until a request does not keep the connection; then the socket is shut
  -- down. What a read holds behind the end of its request is lost, whatever it is. The run is
  -- undefined only where the handler is.
  pub talk-speak :
      (ms : List Message) (rounds : List (List Bytes)) (v : ℕ) (r : Request) (s : Status)
      (k : Option Bool) (w : W)
      → Delivers rounds ms
      → talk (idle v r s k) w rounds ≡ speak w ms
  unfolding talk speak
  talk-speak [] [] v r s k w d = refl
  talk-speak [] (xs ∷ rounds) v r s k w d = absurd d
  talk-speak (m ∷ ms) [] v r s k w d = absurd d
  talk-speak (m ∷ ms) (xs ∷ rounds) v r s k w ((rest, e), wire, d) =
      let (n, p) = receive-message m xs rest v r s k w wire e in
      ap (λ x. written x (λ c' w'. talk c' w' rounds)) p
      ∙ written-answered n (idle v r s k) (keeps m) (respond m w) _ _
          (λ v' r' s' w'. talk-speak ms rounds v' r' s' (some (keeps m)) w' d)

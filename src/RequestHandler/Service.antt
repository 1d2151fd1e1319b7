-- ===== src/RequestHandler/Service.antt =====
-- The connections (src/connection.cpp) served by `handle_request` (src/request_handler.cpp).
use as_proxyd.Env.{Env}
use as_proxyd.Common.{
  ℕ, Bool, true, false, List, [], ◌∷◌, ◌++◌, Option, none, some, refl, ◌∙◌, ap, Bytes,
}
use as_proxyd.Connection.{Handler}
use as_proxyd.Connection.Exchange.{
  idle, keeps, respond, talk, speak, then_speak, sending, Delivers, talk-speak, Shown,
}
use as_proxyd.Parser.Wire.{Message, request_of}
use as_proxyd.Reply.{Reply, Status, ok}
use as_proxyd.Request.{Request}
use as_proxyd.RequestHandler.{World, request_handler}
use as_proxyd.RequestHandler.Framing.{IsDefined, AllReadable, handle_request-read_reply}
use as_proxyd.RequestHandler.Printable.{AllNamed}

module _ (env : Env) (self : ℕ) where
  abbrev the_handler : Handler (World env)
  the_handler = request_handler env self

  sending-IsDefined :
      (out : Bytes) (x : Shown env.boost the_handler)
      → IsDefined x
      → IsDefined (sending env.boost the_handler out x)
  sending-IsDefined out x ((more, w, n), e) =
      ((out ++ more, w, n), ap (sending env.boost the_handler out) e)

  then_speak-IsDefined :
      (k : Bool) (o : Option (Reply × World env)) (loop : World env → Shown env.boost the_handler)
      → IsDefined o
      → ((w : World env) → IsDefined (loop w))
      → IsDefined (then_speak env.boost the_handler k o loop)
  then_speak-IsDefined k none loop (x, e) f = cc
  then_speak-IsDefined true (some (rep, w)) loop d f = sending-IsDefined _ (loop w) (f w)
  then_speak-IsDefined false (some (rep, w)) loop d f = (_, refl)

  speak-IsDefined :
      AllReadable env
      → AllNamed env
      → (w : World env) (ms : List Message) → IsDefined (speak env.boost the_handler w ms)
  unfolding speak
  speak-IsDefined readable named w [] = (_, refl)
  speak-IsDefined readable named w (m ∷ ms) =
      let (root, w', e, text, d, rep, q, hs, shown, size, wish) =
        handle_request-read_reply env self (request_of m) ok (keeps env.boost the_handler m) w
          readable named in
      then_speak-IsDefined (keeps env.boost the_handler m) (respond env.boost the_handler m w) _
        ((rep, w'), q) (λ w''. speak-IsDefined readable named w'' ms)

  -- If each value of bytes in the cluster's records holds a NUL, and each bin name there is UTF-8, a
  -- client that sends requests of the grammar, whose version numbers an `int` has room for, in any
  -- pieces, and waits for each answer never drives the server into undefined behaviour.
  pub talk-IsDefined :
      (ms : List Message) (rounds : List (List Bytes)) (v : ℕ) (r : Request) (s : Status)
      (k : Option Bool) (w : World env)
      → AllReadable env
      → AllNamed env
      → Delivers env.boost the_handler rounds ms
      → IsDefined (talk env.boost the_handler (idle v r s k) w rounds)
  talk-IsDefined ms rounds v r s k w readable named d =
      let (x, e) = speak-IsDefined readable named w ms in
      (x, talk-speak env.boost the_handler ms rounds v r s k w d ∙ e)

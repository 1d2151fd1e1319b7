-- ===== src/Connection/Refusal.antt =====
-- What src/connection.cpp does with bytes that are no request.
use as_proxyd.Boost.{Boost}
use as_proxyd.Common.{
  ℕ, Bool, true, false, List, ◌∷◌, Option, none, some, ◌≡◌, refl, ap, ◌∙◌, Bytes, codes,
}
use as_proxyd.Connection.{Handler, Connection, Next, shut_down, refuse, after_parse, handle_write}
use as_proxyd.Connection.Reads.{concat, receive-concat}
use as_proxyd.Connection.Exchange.{idle, talk, sending, written}
use as_proxyd.Parser.{Machine, rejected, parse, reset}
use as_proxyd.Reply.{Status, bad_request, stock_reply, to_buffers, to_buffer}
use as_proxyd.Reply.Wire.{send}
use as_proxyd.Reply
use as_proxyd.Request.{Request, clear}

module _ {W : Type 0} (b : Boost) (h : Handler W) where
  -- What a client sees of bytes that the parser rejects, in any pieces.
  abbrev pub refused : Option Bool → (W → Option (Bytes × W × Next)) → W → Option (Bytes × W × Next)
  refused none loop w = none
  refused (some true) loop w = sending b h (codes "HTTP/1.1 400 Bad Request\r\n\r\n") (loop w)
  refused (some false) loop w = some (codes "HTTP/1.1 400 Bad Request\r\n\r\n", w, shut_down)

  written-refuse :
      (n : Machine) (s : Status) (k : Option Bool) (w : W)
      (loop : Connection → W → Option (Bytes × W × Next))
      → written b h (refuse b h (record (idle 0 n.request s k) { parser = n }) w) loop
        ≡ refused k (loop (idle n.body_bytes n.request bad_request k)) w
  unfolding refuse handle_write reset Reply.clear stock_reply clear send to_buffers to_buffer
  written-refuse n s none w loop = refl
  written-refuse n s (some true) w loop = refl
  written-refuse n s (some false) w loop = refl

  -- Bytes that are no request get a bare status line with code 400. What follows is decided by the
  -- last request that was answered: if that kept the connection, it goes on with the next one; if
  -- not, it is shut down; and if there was none, the code reads a variable that nothing has set.
  pub talk-refused :
      (xs : List Bytes) (rounds : List (List Bytes)) (v : ℕ) (r : Request) (s : Status)
      (k : Option Bool) (w : W) {rest : Bytes} {n : Machine}
      → parse (idle v r s k).parser (concat xs) ≡ some (rejected, rest, n)
      → talk b h (idle v r s k) w (xs ∷ rounds)
        ≡ refused k (λ w'. talk b h (idle n.body_bytes n.request bad_request k) w' rounds) w
  unfolding talk after_parse
  talk-refused xs rounds v r s k w {rest} {n} e =
      ap (λ x. written b h x (λ c' w'. talk b h c' w' rounds))
        (receive-concat b h xs (idle v r s k) w ∙ ap (after_parse b h (idle v r s k) w) e)
      ∙ written-refuse n s k w _

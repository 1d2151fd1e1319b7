-- ===== src/Connection/Reads.antt =====
-- The reads that make up one request, in src/connection.cpp: `handle_read` calls `read_more` until
-- the parser has decided.
use as_proxyd.Boost.{Boost}
use as_proxyd.Common.{Bool, List, [], ◌∷◌, ◌++◌, Option, none, some, ◌≡◌, refl, sym, ap, ◌∙◌, Bytes}
use as_proxyd.Connection.{
  Handler, Connection, read_some, write_all, shut_down, destroyed, Handled, answer, after_parse,
  answered, handle_read,
}
use as_proxyd.Parser.{Machine, Parsed, accepted, rejected, indeterminate, parse}
use as_proxyd.Parser.Chunks.{then_parse, parse-append}
use as_proxyd.Reply.{Reply}

abbrev pub concat : List Bytes → Bytes
concat [] = []
concat (b ∷ bs) = b ++ concat bs

module _ {W : Type 0} (b : Boost) (h : Handler W) where
  -- The reads that follow one another until the connection does something else; what is still to
  -- arrive then stays unread.
  abbrev pub go_on : Handled b h → (Connection → W → Handled b h) → Handled b h
  go_on none loop = none
  go_on (some (c, w, read_some)) loop = loop c w
  go_on (some (c, w, write_all bufs)) loop = some (c, w, write_all bufs)
  go_on (some (c, w, shut_down)) loop = some (c, w, shut_down)
  go_on (some (c, w, destroyed)) loop = some (c, w, destroyed)

  unfoldable pub receive : Connection → W → List Bytes → Handled b h
  receive c w [] = some (c, w, read_some)
  receive c w (x ∷ xs) = go_on (handle_read b h c w (some x)) (λ c' w'. receive c' w' xs)

  go_on-answered :
      (c : Connection) (k : Bool) (o : Option (Reply × W)) (loop : Connection → W → Handled b h)
      → go_on (answered b h c k o) loop ≡ answered b h c k o
  go_on-answered c k none loop = refl
  go_on-answered c k (some (rep, w)) loop = refl

  go_on-answer :
      (c : Connection) (w : W) (loop : Connection → W → Handled b h)
      → go_on (answer b h c w) loop ≡ answer b h c w
  unfolding answer
  go_on-answer c w loop = go_on-answered c _ (h.handle c.parser.request c.reply _ w) loop

  receive_step :
      (p : Parsed) (c : Connection) (w : W) (xs : List Bytes)
      → ((m : Machine)
          → receive (record c { parser = m }) w xs ≡ after_parse b h c w (parse m (concat xs)))
      → go_on (after_parse b h c w p) (λ c' w'. receive c' w' xs)
        ≡ after_parse b h c w (then_parse p (concat xs))
  unfolding after_parse
  receive_step none c w xs ih = refl
  receive_step (some (accepted, r, m)) c w xs ih = go_on-answer (record c { parser = m }) w _
  receive_step (some (rejected, r, m)) c w xs ih = refl
  receive_step (some (indeterminate, r, m)) c w xs ih = ih m

  -- However the network cuts the bytes of a request into reads, the connection ends where one read
  -- of all of them would have put it: in the same state, over the same world, with the same
  -- operation to come. What stands behind a finished request makes no difference.
  pub receive-concat :
      (xs : List Bytes) (c : Connection) (w : W)
      → receive c w xs ≡ after_parse b h c w (parse c.parser (concat xs))
  unfolding receive handle_read
  receive-concat [] c w = unfold parse after_parse in refl
  receive-concat (x ∷ xs) c w =
      receive_step (parse c.parser x) c w xs (λ m. receive-concat xs (record c { parser = m }) w)
      ∙ ap (after_parse b h c w) (sym (parse-append c.parser x (concat xs)))

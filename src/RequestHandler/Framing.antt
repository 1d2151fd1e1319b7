-- ===== src/RequestHandler/Framing.antt =====
-- `handle_request` (src/request_handler.cpp) answers every request, and the client can read the
-- answer.
use as_proxyd.Aerospike.{Config, Key}
use as_proxyd.AsObject.{key_init, AsObject, get}
use as_proxyd.AsObject.Convert.Members.{IsReadable, data_convert-Holds}
use as_proxyd.Env.{Env}
use as_proxyd.Common.{
  ℕ, Bool, true, false, not, List, [], ◌∷◌, Option, none, some, ◌≡◌, refl, ◌∙◌, ap, arith,
  if◌then◌else◌, ◌==◌, Bytes, codes, length, until_nul, all, All, is_dec, eq_ℤ, bytes_eq,
}
use as_proxyd.Control.{Control, lookup, get_as_object}
use as_proxyd.Jansson.{compact}
use as_proxyd.Parser.{digits_value}
use as_proxyd.Reply.{Reply, Status, ok, stock_reply, to_buffers, status_value}
use as_proxyd.Reply.Wire.{IsSendable, send, read_reply, read_reply-to_buffers}
use as_proxyd.Request.{Header, Request, find_header}
use as_proxyd.RequestHandler.Printable.{AllNamed, took-dumps}
use as_proxyd.RequestHandler.{
  World, empty_got, got, get_with, get_members, members_for, root_for, target, framing, written,
  took, replied, handle_request, key_of,
}

-- A result that is there.
abbrev pub IsDefined {ℓ} : {T : Type ℓ} → Option T → Type ℓ
IsDefined {T = T} o = (x : T) × (o ≡ some x)

if-IsDefined {ℓ} :
    {T : Type ℓ} (c : Bool) (x y : Option T)
    → IsDefined x
    → IsDefined y
    → IsDefined (if c then x else y)
if-IsDefined true x y p q = p
if-IsDefined false x y p q = q

digits_no_cr : (s : Bytes) → all is_dec s ≡ true → all (λ c. not (c == b'\r')) s ≡ true
unfolding is_dec
digits_no_cr [] h = refl
digits_no_cr (c ∷ cs) h = ground (arith, digits_no_cr cs)

module _ (env : Env) where
  open env.jansson use {Json, json_object, json_dumps}

  -- In every record that the cluster gives, a value of bytes holds a NUL.
  abbrev pub AllReadable : Type 0
  AllReadable =
      (c : Config) (k : Key) (w : env.aerospike.Cluster)
      → All (IsReadable env.jansson env.gunzip) (env.aerospike.aerospike_key_get c k w).1.bins

module _ (env : Env) (self : ℕ) where
  open env.jansson use {Json, json_object, json_dumps}

  get-IsDefined :
      AllReadable env
      → (k : Key) (o : AsObject) (w : env.aerospike.Cluster)
      → IsDefined (get env.aerospike env.jansson env.gunzip k (empty_got env) o w)
  unfolding get
  get-IsDefined readable k o w =
      let (st, r, w') = env.aerospike.aerospike_key_get o.config (key_init env.aerospike k) w in
      let (v, e, h) =
        data_convert-Holds env.jansson env.gunzip r.bins json_object
          (env.jansson.json_object_get json_object) (readable o.config (key_init env.aerospike k) w)
          (env.jansson.typeof-json_object, λ j. refl) in
      if-IsDefined o.isalive _ _
        (if-IsDefined (eq_ℤ st env.aerospike.aerospike_ok) _ _ (rw e (_, refl)) (_, refl)) (_, refl)

  get_with-IsDefined :
      (root : Json) (k : Key) (c : Control) (w : env.aerospike.Cluster) (o : Option AsObject)
      → AllReadable env
      → IsDefined (get_with env self root k c w o)
  get_with-IsDefined root k c w none h = (_, refl)
  get_with-IsDefined root k c w (some o) h =
      let ((st, g, o', w'), e) = get-IsDefined h k o w in (_, ap (got env self root c) e)

  root_for-IsDefined :
      AllReadable env → (r : Request) (w : World env) → IsDefined (root_for env self r w)
  unfolding root_for members_for get_members
  root_for-IsDefined h r w =
      let (file, m) = target env r in
      let (c, v) = get_as_object env.aerospike env.shuffle self w.control w.cluster in
      if-IsDefined (bytes_eq (env.boost.to_lower_copy file) (codes "/status")) _ _ (_, refl)
        (if-IsDefined (bytes_eq (env.boost.to_lower_copy file) (codes "/get")) _ _
          (get_with-IsDefined json_object (key_of env m) c v (lookup self c.objects) h) (_, refl))

  framing-IsSendable : (content : Bytes) (k : Bool) → All IsSendable (framing env content k)
  framing-IsSendable content k = (
    (
      refl,
      refl,
      digits_no_cr (env.boost.lexical_cast (length content))
          (env.boost.lexical_cast_dec (length content)),
    ),
    ((refl, refl, refl), ((refl, refl, ground arith), tt)),
  )

  -- Every request gets a reply.
  pub handle_request-IsDefined :
      AllReadable env
      → AllNamed env
      → (r : Request) (rep : Reply) (k : Bool) (w : World env)
      → IsDefined (handle_request env self r rep k w)
  unfolding handle_request
  handle_request-IsDefined readable named r rep k w =
      let ((root, w'), e) = root_for-IsDefined readable r w in
      let (text, d) = took-dumps env self named r w w' root e in
      (_, ap (replied env rep k) e ∙ ap (written env rep k w') d)

  -- If each value of bytes in the cluster's records holds a NUL, and each bin name there is UTF-8, then
  -- every request gets a reply, which the client reads back as status 200 with the text of the object
  -- that stands for the request, up to its first NUL. The Content-Length header gives the length of
  -- that content, and the Connection header says what becomes of the connection.
  pub handle_request-read_reply :
      (r : Request) (s : Status) (k : Bool) (w : World env)
      → AllReadable env
      → AllNamed env
      → (root : Json) × (w' : World env) × (root_for env self r w ≡ some (root, w'))
        × (text : Bytes) × (json_dumps compact (took env root w') ≡ some text)
        × (rep : Reply) × (handle_request env self r (stock_reply s) k w ≡ some (rep, w'))
        × (hs : List Header) × (read_reply (send (to_buffers rep)) ≡ some (200, hs, until_nul text))
        × (digits_value 0 (find_header hs (codes "Content-Length")) ≡ length (until_nul text))
        × (find_header hs (codes "Connection") ≡ (if k then codes "Keep-Alive" else codes "close"))
  unfolding handle_request stock_reply find_header status_value bytes_eq
  handle_request-read_reply r s k w readable named =
      let ((root, w'), e) = root_for-IsDefined readable r w in
      let (text, d) = took-dumps env self named r w w' root e in
      let content = until_nul text in
      let hs = framing env content k in
      let rep : Reply = record { status = ok; headers = hs; content = content } in
      (
        root,
        w',
        e,
        text,
        d,
        rep,
        ap (replied env (stock_reply s) k) e ∙ ap (written env (stock_reply s) k w') d,
        hs,
        read_reply-to_buffers rep (framing-IsSendable content k),
        env.boost.lexical_cast_value (length content),
        refl,
      )

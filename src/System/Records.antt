-- ===== src/System/Records.antt =====
-- What a client of the running program gets that asks for a record.
use mathlib.Core.Path.{subst}
use as_proxyd.Aerospike.{AsRecord, Key}
use as_proxyd.AsObject.{AsObject}
use as_proxyd.AsObject.Convert.Members.{Holds, last_shown}
use as_proxyd.Boost.{join, free_of}
use as_proxyd.Common.{
  ℕ, ◌≤◌, true, List, [], ◌∷◌, ◌++◌, map, none, some, ◌≡◌, refl, ◌∙◌, ap, All, Bytes, codes, length,
  get_elem?, until_nul, to_lower, Option, Bool,
}
use as_proxyd.Connection.{Handler, write_all, answered}
use as_proxyd.Connection.Exchange.{idle, keeps, handle_read-message}
use as_proxyd.Connection.Life.{buffer_size}
use as_proxyd.Control.{lookup}
use as_proxyd.Env.{Env}
use as_proxyd.Jansson.{compact}
use as_proxyd.Parser.Wire.{Message, print, request_of, IsWire}
use as_proxyd.Query.Print.{Part, print_part, IsPart, last_value}
use as_proxyd.Reply.{Reply, Status, ok, to_buffers}
use as_proxyd.Reply.Wire.{send, read_reply}
use as_proxyd.Request.{Header, Request}
use as_proxyd.RequestHandler.{World, request_handler, took, root_for}
use as_proxyd.RequestHandler.Framing.{AllReadable, handle_request-read_reply}
use as_proxyd.RequestHandler.Printable.{AllNamed}
use as_proxyd.RequestHandler.Routes.{IsResults, root_for-get}
use as_proxyd.RequestHandler.Uri.{target-Escapes}
use as_proxyd.System.{Live, System, world_of}
use as_proxyd.System.Answers.{waiting, Goes, read_step}
use as_proxyd.Url.Escapes.{Escapes}

module _ (env : Env) where
  open env.jansson use {Json, json_dumps}

  -- The record's bins as the member "results", each name with the last value that has one; the cluster is
  -- as the read has left it.
  abbrev pub Shows : ℕ → AsRecord → env.aerospike.Cluster → Json × World env → Type 0
  Shows self rec c x =
      (x.1.cluster ≡ c)
      × (results : Json) × IsResults env self x.0 results
      × Holds env.jansson env.gunzip results
          (λ j. last_shown env.jansson env.gunzip rec.bins j none)

  -- The key that a query asks for, each part up to its first NUL.
  abbrev pub asked_key : List Part → Key
  asked_key ps = record {
    ns = until_nul (last_value ps (codes "ns") []);
    set = until_nul (last_value ps (codes "set") []);
    key = until_nul (last_value ps (codes "key") []);
  }

  root_for-Shows :
      (self : ℕ) (r : Request) (w : World env) (file : Bytes) (ps : List Part) (o : AsObject)
      (rec : AsRecord) (c : env.aerospike.Cluster) (x : Json × World env)
      → AllReadable env
      → map to_lower file ≡ codes "/get"
      → free_of b'?' file ≡ true
      → All IsPart ps
      → Escapes (file ++ (b'?' ∷ join b'&' (map print_part ps))) r.uri
      → lookup self w.control.objects ≡ some o
      → o.isalive ≡ true
      → env.aerospike.aerospike_key_get o.config (asked_key ps) w.cluster
        ≡ (env.aerospike.aerospike_ok, rec, c)
      → root_for env self r w ≡ some x
      → Shows self rec c x
  root_for-Shows self r w file ps o rec c x readable f q a e l alive found h =
      let (m, asks, p, _) = target-Escapes env r file ps q a e in
      let (root, w', g, wc, results, is, holds) =
        root_for-get env self r m w o c rec (rw f at asks) l alive
          (rw (p (codes "ns"), p (codes "set"), p (codes "key")) found)
          (rw found at (readable o.config (asked_key ps) w.cluster)) in
      let same : (root, w') ≡ x = cc in subst (Shows self rec c) same (wc, results, is, holds)

-- While the server runs, a request of the grammar reaches a waiting connection in one read. Its URI is any
-- spelling, with escapes, of "/get", in any case of letters, with the parts of a query behind it. The
-- client of the thread that handles it is alive, and finds the record of the key that the query asks for.
-- Each value of bytes in the cluster's records holds a NUL, and each bin name there is UTF-8. Then in one
-- step the connection writes a reply that its client reads as status 200 with the text, up to its first
-- NUL, of a JSON object that has the bins of the record as "results", if there are any to show, and the
-- time that it took; and the cluster is as the read has left it.
pub record_answered :
    (env : Env) (ids : List ℕ) (i self : ℕ)
    → get_elem? ids i ≡ some self
    → AllReadable env
    → AllNamed env
    → (s : System env) (n v : ℕ) (r : Request) (st : Status) (k : Option Bool)
    → s.server.running ≡ true
    → lookup n s.sessions ≡ some (waiting env ids v r st k)
    → (m : Message) (rest : Bytes) → IsWire m
    → length (print m ++ rest) ≤ buffer_size
    → (file : Bytes) (ps : List Part) → map to_lower file ≡ codes "/get"
    → free_of b'?' file ≡ true
    → All IsPart ps
    → Escapes (file ++ (b'?' ∷ join b'&' (map print_part ps))) m.uri
    → (o : AsObject) (rec : AsRecord) (c : env.aerospike.Cluster)
    → lookup self s.server.control.objects ≡ some o
    → o.isalive ≡ true
    → env.aerospike.aerospike_key_get o.config (asked_key env ps) s.cluster
      ≡ (env.aerospike.aerospike_ok, rec, c)
    → (t : System env) × (u : Live) × Goes env ids s n u t
      × (t.cluster ≡ c)
      × (rep : Reply) × (u.next ≡ write_all (to_buffers rep))
      × (hs : List Header) × (text : Bytes) × (read_reply (send (to_buffers rep))
          ≡ some (200, hs, until_nul text))
      × (root : env.jansson.Json) × (w : World env) × (env.jansson.json_dumps compact
            (took env root w)
          ≡ some text)
      × Shows env self rec c (root, w)
record_answered env ids i self g readable named s n v r st k running e m rest wire short file ps f q
      a x o rec c l alive found =
    let h : Handler (World env) = request_handler env self in
    let keep = keeps env.boost h m in
    let (root, w, root_is, text, dumps, rep, handled, hs, shown, _, _) =
      handle_request-read_reply env self (request_of m) ok keep (world_of env s) readable named in
    let shows =
      root_for-Shows env self (request_of m) (world_of env s) file ps o rec c (root, w) readable f q
        a x l alive found root_is in
    let (p, b) = handle_read-message env.boost h m rest v r st k (world_of env s) wire in
    let go =
      read_step env ids i self g s n (waiting env ids v r st k) (print m ++ rest) _ w
        (write_all (to_buffers rep)) running e refl short
        (b ∙ ap (answered env.boost h (record (idle v r st k) { parser = p }) keep) handled) in
    (_, _, go, shows.0, rep, refl, hs, text, shown, root, w, dumps, shows)

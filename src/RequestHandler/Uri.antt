-- ===== src/RequestHandler/Uri.antt =====
-- What `handle_request` (src/request_handler.cpp) takes from a URI, from the bytes that the client sends to
-- the namespace, the set and the key.
use as_proxyd.Boost.{join, free_of}
use as_proxyd.Common.{
  ℕ, Bool, ◌∙◌, ap, sym, some, if◌then◌else◌, bytes_eq, true, List, ◌∷◌, ◌++◌, [], map, ◌≡◌, refl,
  All, Bytes, codes, to_lower,
}
use as_proxyd.Env.{Env}
use as_proxyd.Query.{Params, map_get, parse_query}
use as_proxyd.Query.Print.{Part, print_part, IsPart, last_value, map_get-parse_query}
use as_proxyd.Query.Order.{Reordered, All-Reordered, last_value-Reordered}
use as_proxyd.Reply.{Reply}
use as_proxyd.Request.{Request}
use as_proxyd.RequestHandler.{
  World, key_of, members_for, get_members, status_members, handle_request, replied,
}
use as_proxyd.RequestHandler.Routes.{Asks, target-query, root_for-Asks}
use as_proxyd.Url.Escapes.{Escapes, url_decode-Escapes}

-- The values that a printed query gives.
map_get-printed :
    (env : Env) (ps : List Part) (k : Bytes)
    → All IsPart ps
    → map_get (parse_query env.boost (join b'&' (map print_part ps)) []) k [] ≡ last_value ps k []
unfolding map_get
map_get-printed env ps k a = map_get-parse_query env.boost ps [] k [] a

-- A client takes a path, which has no question mark, and the parts of a query, joined by `&`, and spells
-- the whole with escapes in any way. `handle_request` sees that path in small letters, and for each
-- parameter the value of the last part that gives it one, or nothing; the namespace, the set and the key
-- of the record are three of them.
pub target-Escapes :
    (env : Env) (r : Request) (file : Bytes) (ps : List Part)
    → free_of b'?' file ≡ true
    → All IsPart ps
    → Escapes (file ++ (b'?' ∷ join b'&' (map print_part ps))) r.uri
    → (m : Params) × Asks env r (map to_lower file) m
      × ((k : Bytes) → map_get m k [] ≡ last_value ps k [])
      × (key_of env m ≡ record {
        ns = last_value ps (codes "ns") [];
        set = last_value ps (codes "set") [];
        key = last_value ps (codes "key") [];
      })
target-Escapes env r file ps f a e = (
  parse_query env.boost (join b'&' (map print_part ps)) [],
  target-query env r file (join b'&' (map print_part ps)) f (url_decode-Escapes e),
  λ k. map_get-printed env ps k a,
  rw
      (
        map_get-printed env ps (codes "ns") a,
        map_get-printed env ps (codes "set") a,
        map_get-printed env ps (codes "key") a,
      )
      refl,
)

-- The reply depends on the parameters through the key alone.
members_for-key_of :
    (env : Env) (self : ℕ) (api : Bytes) (m n : Params) (w : World env)
    → key_of env m ≡ key_of env n
    → members_for env self api m w ≡ members_for env self api n w
unfolding members_for
members_for-key_of env self api m n w e =
    ap
      (λ k.
        if bytes_eq api (codes "/status")
        then some (status_members env env.jansson.json_object, w)
        else if bytes_eq api (codes "/get")
        then get_members env self env.jansson.json_object k w
        else some (env.jansson.json_object, w))
      e

-- Two clients ask for one path, and give the parts of the query in two orders, in which the parts of one
-- key stand in the same order, each with escapes as it likes. In one thread and one state of the clients
-- and the cluster both get the same reply, and leave the same state.
pub handle_request-Reordered :
    (env : Env) (self : ℕ) (r s : Request) (rep : Reply) (keepalive : Bool) (w : World env)
    (file : Bytes) (ps qs : List Part)
    → free_of b'?' file ≡ true
    → All IsPart ps
    → Reordered ps qs
    → Escapes (file ++ (b'?' ∷ join b'&' (map print_part ps))) r.uri
    → Escapes (file ++ (b'?' ∷ join b'&' (map print_part qs))) s.uri
    → handle_request env self r rep keepalive w ≡ handle_request env self s rep keepalive w
unfolding handle_request
handle_request-Reordered env self r s rep keepalive w file ps qs f a o e g =
    let (m, asks, _, p) = target-Escapes env r file ps f a e in
    let (n, asks', _, q) = target-Escapes env s file qs f (All-Reordered o a) g in
    let same : key_of env m ≡ key_of env n =
      p
      ∙ rw
          (
            last_value-Reordered o (codes "ns") [],
            last_value-Reordered o (codes "set") [],
            last_value-Reordered o (codes "key") [],
          )
          refl
      ∙ sym q in
    ap (replied env rep keepalive) (
      root_for-Asks env self r (map to_lower file) m w asks
      ∙ members_for-key_of env self (map to_lower file) m n w same
      ∙ sym (root_for-Asks env self s (map to_lower file) n w asks'))

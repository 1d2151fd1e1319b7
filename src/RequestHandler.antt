-- ===== src/RequestHandler.antt =====
-- `request_handler::handle_request` (src/request_handler.cpp): a request as a lookup in the cluster,
-- and the reply to it.
pub mod Printable
pub mod Framing
pub mod Routes
pub mod Uri
pub mod Service
pub mod Objects
pub mod Uses
mod Tests
use as_proxyd.Aerospike.{Key}
use as_proxyd.AsObject.{AsObject, Got, Outcome, get}
use as_proxyd.Common.{
  ℕ, ◌+◌, Bool, true, false, List, [], ◌∷◌, ◌++◌, Option, none, some, if◌then◌else◌, ◌==◌, Bytes,
  codes, bytes_eq, take, drop, length, pos, until_nul, ◌≡◌, refl,
}
use as_proxyd.Connection.{Handler}
use as_proxyd.Control.{Control, lookup, assign, get_as_object}
use as_proxyd.Env.{Env}
use as_proxyd.Jansson.{compact}
use as_proxyd.Query.{Params, find_byte, map_get, parse_query}
use as_proxyd.Reply.{Reply, Status, ok, stock_reply}
use as_proxyd.Request.{Header, Request}
use as_proxyd.Url.{url_decode}

module _ (env : Env) where
  open env.jansson use {
    Json, json_object, json_object_set, json_integer, json_string, json_real, json_dumps,
  }

  pub record World : Type 0 where
    pub control : Control
    pub cluster : env.aerospike.Cluster

  -- `urlfile` and `params`, from the decoded path. Without a question mark both stay empty.
  unfoldable pub split_path : Bytes → Bytes × Params
  split_path path = elim (find_byte b'?' path) [
    | none ↦ ([], [])
    | some i ↦ (take i path, parse_query env.boost (drop (i + 1) path) [])
  ]

  unfoldable pub target : Request → Bytes × Params
  unfolding split_path
  target r = let (decoded, path) = url_decode r.uri in if decoded then split_path path else ([], [])

  abbrev pub key_of : Params → Key
  key_of m = record {
    ns = map_get m (codes "ns") [];
    set = map_get m (codes "set") [];
    key = map_get m (codes "key") [];
  }

  abbrev pub empty_got : Got env.aerospike env.jansson env.gunzip
  empty_got = record { bins = json_object; ttl = 0; gen = 0 }

  -- The members for "/status".
  abbrev pub status_members : Json → Json
  status_members root =
      json_object_set (json_object_set root (codes "proxy_code") (some (json_integer (pos 100))))
        (codes "proxy_status") (json_string (codes "OK"))

  abbrev pub results_member : Json → Json → Json
  results_member bins root =
      if env.jansson.json_object_size bins == 0
      then root
      else json_object_set root (codes "results") (some bins)

  abbrev pub framing : Bytes → Bool → List Header
  framing content keepalive =
      record { name = codes "Content-Length"; value = env.boost.lexical_cast (length content) }
      ∷ record { name = codes "Content-Type"; value = codes "application/json; charset=UTF-8" }
      ∷ record {
        name = codes "Connection";
        value = if keepalive then codes "Keep-Alive" else codes "close";
      }
      ∷ []

  -- The reply around the text; `strlen` of NULL is undefined.
  abbrev pub written : Reply → Bool → World → Option Bytes → Option (Reply × World)
  written rep k w none = none
  written rep k w (some text) =
      let content = rep.content ++ until_nul text in
      some (record { status = ok; headers = framing content k; content = content }, w)

  abbrev pub took : Json → World → Json
  took root w = json_object_set root (codes "took") (json_real (env.seconds_since w.cluster))

  abbrev pub replied : Reply → Bool → Option (Json × World) → Option (Reply × World)
  replied rep k none = none
  replied rep k (some (root, w)) = written rep k w (json_dumps compact (took root w))

  written-status :
      (s t : Status) (k : Bool) (w : World) (o : Option Bytes)
      → written (stock_reply s) k w o ≡ written (stock_reply t) k w o
  unfolding stock_reply
  written-status s t k w none = refl
  written-status s t k w (some x) = refl

  replied-status :
      (s t : Status) (k : Bool) (q : Option (Json × World))
      → replied (stock_reply s) k q ≡ replied (stock_reply t) k q
  replied-status s t k none = refl
  replied-status s t k (some (root, w)) = written-status s t k w (json_dumps compact (took root w))

  -- `self` is the thread.
  module _ (self : ℕ) where
    -- What `GET` leaves: the object in its map, and the member for what it found.
    abbrev pub got :
        Json → Control → Outcome env.aerospike env.jansson env.gunzip → Option (Json × World)
    got root c none = none
    got root c (some (st, g, o, w)) = some (
      results_member g.bins root,
      record { control = record c { objects = assign self o c.objects }; cluster = w },
    )

    abbrev pub get_with :
        Json → Key → Control → env.aerospike.Cluster → Option AsObject → Option (Json × World)
    get_with root k c w none = some (root, record { control = c; cluster = w })
    get_with root k c w (some o) =
        got root c (get env.aerospike env.jansson env.gunzip k empty_got o w)

    -- The members for "/get".
    unfoldable pub get_members : Json → Key → World → Option (Json × World)
    get_members root k w =
        let (c, v) = get_as_object env.aerospike env.shuffle self w.control w.cluster in
        get_with root k c v (lookup self c.objects)

    -- `AS_API` selects the members.
    unfoldable pub members_for : Bytes → Params → World → Option (Json × World)
    unfolding get_members
    members_for api m w =
        if bytes_eq api (codes "/status")
        then some (status_members json_object, w)
        else if bytes_eq api (codes "/get")
        then get_members json_object (key_of m) w
        else some (json_object, w)

    -- `handle_request` up to the member "took". The bin names of the query are split, and not used.
    unfoldable pub root_for : Request → World → Option (Json × World)
    unfolding members_for target
    root_for r w = let (file, m) = target r in members_for (env.boost.to_lower_copy file) m w

    unfoldable pub handle_request : Request → Reply → Bool → World → Option (Reply × World)
    unfolding root_for
    handle_request r rep k w = replied rep k (root_for r w)

    pub handle_request-status :
        (r : Request) (s t : Status) (k : Bool) (w : World)
        → handle_request r (stock_reply s) k w ≡ handle_request r (stock_reply t) k w
    unfolding handle_request
    handle_request-status r s t k w = replied-status s t k (root_for r w)

    -- The handler of the connections.
    abbrev pub request_handler : Handler World
    request_handler = record { handle = handle_request; handle-status = handle_request-status }

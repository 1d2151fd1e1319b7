-- ===== src/RequestHandler/Objects.antt =====
-- What `handle_request` (src/request_handler.cpp) does to the clients of the threads: in a thread that
-- has its client it inserts nothing into their map, and removes nothing.
use as_proxyd.AsObject.{AsObject, Outcome}
use as_proxyd.Common.{
  ℕ, Bool, true, false, List, Option, none, some, ◌≡◌, ◌∙◌, All, if◌then◌else◌, Bytes, codes,
  bytes_eq,
}
use as_proxyd.Aerospike.{Key}
use as_proxyd.Control.{Control, lookup}
use as_proxyd.Control.Pool.{get_as_object-old}
use as_proxyd.Env.{Env}
use as_proxyd.Jansson.{compact}
use as_proxyd.Connection.World.{KeptReply}
use as_proxyd.Reply.{Reply}
use as_proxyd.Request.{Request}
use as_proxyd.RequestHandler.{
  World, target, key_of, took, replied, written, got, get_members, members_for, root_for,
  handle_request,
}
use as_proxyd.Server.Threads.{Holds, assign-All, keys, keys-assign}

module _ (env : Env) (ids places : List ℕ) where
  -- The threads of the pool have their clients, and the map has these entries.
  abbrev pub Covered : World env → Type 0
  Covered w = All (λ id. Holds id w.control.objects) ids × (keys w.control.objects ≡ places)

  abbrev KeptRoot : {X : Type 0} → Option (X × World env) → Type 0
  KeptRoot none = Unit
  KeptRoot (some (x, w)) = Covered w

  module _ (self : ℕ) where
    got-Covered :
        (root : env.jansson.Json) (c : Control) (o : AsObject)
        (r : Outcome env.aerospike env.jansson env.gunzip)
        → lookup self c.objects ≡ some o
        → All (λ id. Holds id c.objects) ids
        → keys c.objects ≡ places
        → KeptRoot (got env self root c r)
    got-Covered root c o none e a q = tt
    got-Covered root c o (some (st, g, o', w)) e a q =
        (assign-All ids self o' c.objects a, keys-assign self o o' c.objects e ∙ q)

    get_members-Covered :
        (root : env.jansson.Json) (k : Key) (w : World env)
        → Holds self w.control.objects
        → Covered w
        → KeptRoot (get_members env self root k w)
    unfolding get_members
    get_members-Covered root k w (o, e) (a, q) =
        rw (get_as_object-old env.aerospike env.shuffle self w.control w.cluster (o, e))
          (rw e (got-Covered root w.control o _ e a q))

    if-Kept :
        {X : Type 0} (c : Bool) (x y : Option (X × World env))
        → KeptRoot x
        → KeptRoot y
        → KeptRoot (if c then x else y)
    if-Kept true x y p q = p
    if-Kept false x y p q = q

    root_for-Covered :
        (r : Request) (w : World env)
        → Holds self w.control.objects
        → Covered w
        → KeptRoot (root_for env self r w)
    unfolding root_for members_for
    root_for-Covered r w h v =
        let (file, m) = target env r in
        if-Kept (bytes_eq (env.boost.to_lower_copy file) (codes "/status")) _ _ v (
          if-Kept (bytes_eq (env.boost.to_lower_copy file) (codes "/get")) _ _
            (get_members-Covered _ (key_of env m) w h v) v)

    written-Covered :
        (rep : Reply) (k : Bool) (w : World env) (o : Option Bytes)
        → Covered w
        → KeptReply Covered (written env rep k w o)
    written-Covered rep k w none v = tt
    written-Covered rep k w (some text) v = v

    replied-Covered :
        (rep : Reply) (k : Bool) (q : Option (env.jansson.Json × World env))
        → KeptRoot q
        → KeptReply Covered (replied env rep k q)
    replied-Covered rep k none v = tt
    replied-Covered rep k (some (root, w)) v =
        written-Covered rep k w (env.jansson.json_dumps compact (took env root w)) v

    -- In a thread that has its client every request leaves the map with the entries that it had.
    pub handle_request-Covered :
        (r : Request) (rep : Reply) (k : Bool) (w : World env)
        → Holds self w.control.objects
        → Covered w
        → KeptReply Covered (handle_request env self r rep k w)
    unfolding handle_request
    handle_request-Covered r rep k w h v =
        replied-Covered rep k (root_for env self r w) (root_for-Covered r w h v)

-- ===== src/RequestHandler/Uses.antt =====
-- What `handle_request` (src/request_handler.cpp) acquires, uses and gives back, in the order of the code:
-- the JSON values, the record with its key, and the text of the reply.
use as_proxyd.Aerospike.{Key}
use as_proxyd.AsObject.{AsObject, Outcome, get}
use as_proxyd.AsObject.Uses.{get_uses, get_uses-Keeps}
use as_proxyd.Common.{
  ℕ, Bool, List, [], ◌∷◌, ◌++◌, Option, none, some, ◌≡◌, refl, ◌∙◌, arith, if◌then◌else◌, ◌==◌,
  Bytes, bytes_eq, codes, pos,
}
use as_proxyd.Control.{Control, lookup, get_as_object}
use as_proxyd.Env.{Env}
use as_proxyd.Jansson.{compact}
use as_proxyd.Ownership.{
  root, bins, value, result, Use, acquires, reads, gives, releases, owns, without, run_uses,
  run_uses-append, Keeps, Keeps-append,
}
use as_proxyd.Query.{Params}
use as_proxyd.Reply.{Reply}
use as_proxyd.Request.{Request}
use as_proxyd.RequestHandler.{
  World, target, key_of, empty_got, took, root_for, members_for, get_members, get_with, got,
  replied, handle_request, written,
}

module _ (env : Env) where
  open env.jansson use {Json, json_integer, json_string, json_real, json_dumps, json_object_size}

  -- `json_object_set_new_nocheck(root, ...)`, of a new value or NULL.
  abbrev pub member_uses : Option Json → List Use
  member_uses none = reads root ∷ []
  member_uses (some v) = acquires value ∷ gives root value ∷ []

  -- The members for "/status".
  abbrev pub status_uses : List Use
  status_uses =
      member_uses (some (json_integer (pos 100))) ++ member_uses (json_string (codes "OK"))

  -- Behind `GET`: the bins go into `root`, or are given back.
  abbrev pub results_uses : Outcome env.aerospike env.jansson env.gunzip → List Use
  results_uses none = []
  results_uses (some (st, g, o, w)) =
      reads bins
      ∷ (if json_object_size g.bins == 0 then releases bins ∷ [] else gives root bins ∷ [])

  -- The test of the object, and the calls of `GET`.
  abbrev pub with_uses : Key → env.aerospike.Cluster → Option AsObject → List Use
  with_uses k w none = releases bins ∷ []
  with_uses k w (some o) =
      get_uses env.jansson env.gunzip env.aerospike k o w
      ++ results_uses (get env.aerospike env.jansson env.gunzip k (empty_got env) o w)

  -- `json_dumps`, `strlen` and `free` of the text, and `json_decref(root)`; `strlen` of NULL is undefined.
  abbrev pub dump_uses : Option Bytes → List Use
  dump_uses none = reads root ∷ []
  dump_uses (some t) =
      reads root ∷ acquires result ∷ reads result ∷ releases result ∷ releases root ∷ []

  abbrev pub reply_uses : Option (Json × World env) → List Use
  reply_uses none = []
  reply_uses (some (j, w)) =
      member_uses (json_real (env.seconds_since w.cluster))
      ++ dump_uses (json_dumps compact (took env j w))

  module _ (self : ℕ) where
    -- The members for "/get".
    unfoldable pub get_members_uses : Key → World env → List Use
    get_members_uses k w =
        let (c, v) = get_as_object env.aerospike env.shuffle self w.control w.cluster in
        acquires bins ∷ with_uses k v (lookup self c.objects)

    unfoldable pub members_uses : Bytes → Params → World env → List Use
    unfolding get_members_uses
    members_uses api m w =
        if bytes_eq api (codes "/status")
        then status_uses
        else if bytes_eq api (codes "/get")
        then get_members_uses (key_of env m) w
        else []

    unfoldable pub handle_request_uses : Request → World env → List Use
    unfolding members_uses
    handle_request_uses r w =
        let (file, m) = target env r in
        acquires root
        ∷ (members_uses (env.boost.to_lower_copy file) m w ++ reply_uses (root_for env self r w))

  member_uses-Keeps : (q : Option Json) → Keeps (member_uses q) (root ∷ [])
  unfolding run_uses owns without
  member_uses-Keeps none = refl
  member_uses-Keeps (some v) = refl

  results_uses_lem :
      (self : ℕ) (j : Json) (c : Control) (q : Outcome env.aerospike env.jansson env.gunzip)
      (x : Json × World env)
      → got env self j c q ≡ some x
      → run_uses (results_uses q) (bins ∷ root ∷ []) ≡ some (root ∷ [])
  unfolding run_uses owns without
  results_uses_lem self j c none x e = cc
  results_uses_lem self j c (some (st, g, o, w)) x e = ground arith

  with_uses_lem :
      (self : ℕ) (j : Json) (k : Key) (c : Control) (w : env.aerospike.Cluster)
      (q : Option AsObject) (x : Json × World env)
      → get_with env self j k c w q ≡ some x
      → run_uses (with_uses k w q) (bins ∷ root ∷ []) ≡ some (root ∷ [])
  unfolding run_uses owns without
  with_uses_lem self j k c w none x e = refl
  with_uses_lem self j k c w (some o) x e =
      run_uses-append (get_uses env.jansson env.gunzip env.aerospike k o w) _ (bins ∷ root ∷ [])
        (bins ∷ root ∷ [])
        (get_uses-Keeps env.jansson env.gunzip env.aerospike k o w (bins ∷ root ∷ []) refl)
      ∙ results_uses_lem self j c _ x e

  get_members_uses-Keeps :
      (self : ℕ) (j : Json) (k : Key) (w : World env) (x : Json × World env)
      → get_members env self j k w ≡ some x
      → Keeps (get_members_uses self k w) (root ∷ [])
  unfolding get_members_uses get_members run_uses
  get_members_uses-Keeps self j k w x e =
      let (c, v) = get_as_object env.aerospike env.shuffle self w.control w.cluster in
      with_uses_lem self j k c v (lookup self c.objects) x e

  members_uses-Keeps :
      (self : ℕ) (api : Bytes) (m : Params) (w : World env) (x : Json × World env)
      → members_for env self api m w ≡ some x
      → Keeps (members_uses self api m w) (root ∷ [])
  unfolding members_uses members_for run_uses
  members_uses-Keeps self api m w x e = ground (
    arith,
    Keeps-append (member_uses (some (json_integer (pos 100))))
        (member_uses (json_string (codes "OK"))) (root ∷ [])
        (member_uses-Keeps (some (json_integer (pos 100))))
        (member_uses-Keeps (json_string (codes "OK"))),
    get_members_uses-Keeps self env.jansson.json_object (key_of env m) w x,
  )

  dump_uses_lem :
      (rep : Reply) (k : Bool) (w : World env) (q : Option Bytes) (x : Reply × World env)
      → written env rep k w q ≡ some x
      → run_uses (dump_uses q) (root ∷ []) ≡ some []
  unfolding run_uses owns without
  dump_uses_lem rep k w none x e = cc
  dump_uses_lem rep k w (some t) x e = refl

  replied-some :
      (rep : Reply) (k : Bool) (q : Option (Json × World env)) (x : Reply × World env)
      → replied env rep k q ≡ some x
      → (y : Json × World env) × (q ≡ some y) × (run_uses (reply_uses q) (root ∷ []) ≡ some [])
  replied-some rep k none x e = cc
  replied-some rep k (some (j, w)) x e =
      let u = json_real (env.seconds_since w.cluster) in
      let t = json_dumps compact (took env j w) in
      (
        (j, w),
        refl,
        run_uses-append (member_uses u) (dump_uses t) (root ∷ []) (root ∷ []) (member_uses-Keeps u)
            ∙ dump_uses_lem rep k w t x e,
      )

  -- Whatever is asked, in any state of the clients and the cluster: on the way to a reply nothing is used
  -- or given back that is not owned any more, and in the end nothing is left: each JSON value, the key and
  -- the record, and each buffer has been given back once, or to an object that has.
  pub handle_request_uses_lem :
      (self : ℕ) (r : Request) (rep : Reply) (k : Bool) (w : World env) (x : Reply × World env)
      → handle_request env self r rep k w ≡ some x
      → run_uses (handle_request_uses self r w) [] ≡ some []
  unfolding handle_request handle_request_uses run_uses root_for
  handle_request_uses_lem self r rep k w x e =
      let (file, m) = target env r in
      let api = env.boost.to_lower_copy file in
      let (y, f, g) = replied-some rep k (root_for env self r w) x e in
      run_uses-append (members_uses self api m w) (reply_uses (root_for env self r w)) (root ∷ [])
        (root ∷ []) (members_uses-Keeps self api m w y f)
      ∙ g

-- ===== src/RequestHandler/Routes.antt =====
-- What `handle_request` (src/request_handler.cpp) does for the paths that it knows, and for the
-- others.
use as_proxyd.Aerospike.{AsRecord}
use as_proxyd.AsObject.{AsObject, error_reset}
use as_proxyd.AsObject.Again.{get-found}
use as_proxyd.AsObject.Convert.Members.{IsReadable, Holds, last_shown}
use as_proxyd.Boost.{free_of}
use as_proxyd.Env.{Env}
use as_proxyd.Common.{
  ℕ, Bool, true, false, [], ◌∷◌, ◌++◌, map, none, some, ◌≡◌, refl, ◌∙◌, ap, if◌then◌else◌, ◌==◌,
  Bytes, codes, All, pos, bytes_eq, until_nul, to_lower,
}
use as_proxyd.Control.{lookup, assign}
use as_proxyd.Control.Pool.{get_as_object-old}
use as_proxyd.Query.{map_get, Params, parse_query}
use as_proxyd.Query.Print.{find_byte-append, find_byte-free, take_front, drop_front}
use as_proxyd.Request.{Request}
use as_proxyd.RequestHandler.{
  World, empty_got, get_members, members_for, root_for, split_path, target, key_of, status_members,
  results_member,
}
use as_proxyd.Url.{url_decode}

module _ (env : Env) where
  -- The target of a request is this path and these parameters.
  abbrev pub Asks : Request → Bytes → Params → Type 0
  Asks r api m = (file : Bytes) × (map to_lower file ≡ api) × (target env r ≡ (file, m))

  -- A decoded URI with a question mark asks for what stands in front of the first one, with the
  -- parameters behind it.
  pub target-query :
      (r : Request) (file query : Bytes)
      → free_of b'?' file ≡ true
      → url_decode r.uri ≡ (true, file ++ (b'?' ∷ query))
      → Asks r (map to_lower file) (parse_query env.boost query [])
  unfolding target split_path
  target-query r file query f e = (
    file,
    refl,
    rw e (
        rw (find_byte-append b'?' file query f, split_path)
          (rw (take_front file (b'?' ∷ query), drop_front b'?' file query) refl)),
  )

  -- Without one it asks for nothing.
  pub target-bare :
      (r : Request) (path : Bytes)
      → free_of b'?' path ≡ true
      → url_decode r.uri ≡ (true, path)
      → Asks r [] []
  unfolding target split_path
  target-bare r path f e = ([], refl, rw e (rw (find_byte-free b'?' path f, split_path) refl))

module _ (env : Env) (self : ℕ) where
  open env.jansson use {
    Json, json_object, json_object_set, json_object_get, json_integer, json_string,
    json_object_size,
  }

  pub root_for-Asks :
      (r : Request) (api : Bytes) (m : Params) (w : World env)
      → Asks env r api m
      → root_for env self r w ≡ members_for env self api m w
  unfolding root_for
  root_for-Asks r api m w (file, e, q) = rw q (rw (env.boost.to_lower_copy_lem file) (rw e refl))

  get-two :
      (u v : Json) (k l j : Bytes)
      → json_object_get (json_object_set (json_object_set json_object k (some u)) l (some v)) j
        ≡ (if bytes_eq l j then some v else if bytes_eq k j then some u else none)
  get-two u v k l j =
      env.jansson.get-set (json_object_set json_object k (some u)) v l j
        (env.jansson.typeof-set json_object k (some u) ∙ env.jansson.typeof-json_object)
      ∙ ap (λ x. if bytes_eq l j then some v else x)
          (env.jansson.get-set json_object u k j env.jansson.typeof-json_object
            ∙ ap (λ x. if bytes_eq k j then some u else x) (env.jansson.get-json_object j))

  get-status_members :
      (v : Json) (j : Bytes)
      → json_string (codes "OK") ≡ some v
      → json_object_get (status_members env json_object) j ≡ (
          if bytes_eq (codes "proxy_status") j
          then some v
          else if bytes_eq (codes "proxy_code") j
          then some (json_integer (pos 100))
          else none)
  get-status_members v j e =
      ap
        (λ x.
          json_object_get
            (json_object_set
              (json_object_set json_object (codes "proxy_code") (some (json_integer (pos 100))))
              (codes "proxy_status") x)
            j)
        e
      ∙ get-two (json_integer (pos 100)) v (codes "proxy_code") (codes "proxy_status") j

  -- "/status", in any case of letters: the reply is made of the two members of that path; nothing is
  -- asked of the cluster, and no client of it is needed.
  pub root_for-status :
      (r : Request) (m : Params) (w : World env) (v : Json)
      → Asks env r (codes "/status") m
      → json_string (codes "OK") ≡ some v
      → (root : Json) × (root_for env self r w ≡ some (root, w))
        × (json_object_get root (codes "proxy_code") ≡ some (json_integer (pos 100)))
        × (json_object_get root (codes "proxy_status") ≡ some v)
        × (json_object_get root (codes "results") ≡ none)
  unfolding members_for bytes_eq
  root_for-status r m w v a e = (
    status_members env json_object,
    root_for-Asks r (codes "/status") m w a,
    get-status_members v (codes "proxy_code") e,
    get-status_members v (codes "proxy_status") e,
    get-status_members v (codes "results") e,
  )

  -- A path other than the two, and a URI without a question mark: the reply has no member but the
  -- time, and the cluster is left alone.
  pub root_for-other :
      (r : Request) (api : Bytes) (m : Params) (w : World env)
      → Asks env r api m
      → bytes_eq api (codes "/status") ≡ false
      → bytes_eq api (codes "/get") ≡ false
      → root_for env self r w ≡ some (json_object, w)
  unfolding members_for
  root_for-other r api m w a s g = root_for-Asks r api m w a ∙ rw (s, members_for) (rw g refl)

  -- A URI whose decoded path has no question mark: the reply has no member but the time, whatever the
  -- path is, be it "/status" itself, and the clients and the cluster are left alone.
  pub root_for-bare :
      (r : Request) (path : Bytes) (w : World env)
      → free_of b'?' path ≡ true
      → url_decode r.uri ≡ (true, path)
      → root_for env self r w ≡ some (json_object, w)
  unfolding bytes_eq
  root_for-bare r path w f e = root_for-other r [] [] w (target-bare env r path f e) refl refl

  -- The member "results".
  abbrev pub IsResults : Json → Json → Type 0
  IsResults root results =
      json_object_get root (codes "results")
      ≡ (if json_object_size results == 0 then none else some results)

  results_member-IsResults :
      (bins : Json) (q : Bool)
      → (json_object_size bins == 0) ≡ q
      → IsResults (results_member env bins json_object) bins
  unfolding bytes_eq
  results_member-IsResults bins true e = rw e (env.jansson.get-json_object (codes "results"))
  results_member-IsResults bins false e = rw e (
      env.jansson.get-set json_object bins (codes "results") (codes "results")
        env.jansson.typeof-json_object)

  -- "/get", in any case of letters, in a thread of the pool whose client is alive and finds a record
  -- in which each value of bytes holds a NUL: the client reads with the namespace, the set and the key
  -- of the query, each up to its first NUL; the reply has the record's bins as "results", each name with
  -- the last value that has one, and leaves "results" out if there is no such bin.
  pub root_for-get :
      (r : Request) (m : Params) (w : World env) (o : AsObject) (v : env.aerospike.Cluster)
      (rec : AsRecord)
      → Asks env r (codes "/get") m
      → lookup self w.control.objects ≡ some o
      → o.isalive ≡ true
      → env.aerospike.aerospike_key_get o.config
          (record {
            ns = until_nul (map_get m (codes "ns") []);
            set = until_nul (map_get m (codes "set") []);
            key = until_nul (map_get m (codes "key") []);
          })
          w.cluster
        ≡ (env.aerospike.aerospike_ok, rec, v)
      → All (IsReadable env.jansson env.gunzip) rec.bins
      → (root : Json) × (w' : World env) × (root_for env self r w ≡ some (root, w'))
        × (w'.cluster ≡ v)
        × (results : Json) × IsResults root results
        × Holds env.jansson env.gunzip results
            (λ j. last_shown env.jansson env.gunzip rec.bins j none)
  unfolding members_for get_members bytes_eq
  root_for-get r m w o v rec a l alive e readable =
      let (bins, f, h) =
        get-found env.aerospike env.jansson env.gunzip (key_of env m) (empty_got env) o w.cluster v
          rec (λ j. none) alive e readable
          (env.jansson.typeof-json_object, env.jansson.get-json_object) in
      (
        results_member env bins json_object,
        record {
          control = record w.control {
            objects = assign self (error_reset env.aerospike o) w.control.objects;
          };
          cluster = v;
        },
        root_for-Asks r (codes "/get") m w a
            ∙ rw (get_as_object-old env.aerospike env.shuffle self w.control w.cluster (o, l))
                (rw l (rw f refl)),
        refl,
        bins,
        results_member-IsResults bins _ refl,
        h,
      )

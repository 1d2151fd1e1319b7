-- ===== src/AsObject.antt =====
-- `AS_OBJECT` (include/as_object.hpp): one client of the cluster, whether it is alive, and the error
-- that its last call left.
pub mod Convert
pub mod Store
pub mod Alive
pub mod Again
pub mod Uses
mod Tests
use as_proxyd.Aerospike.{AsValue, AsRecord, Timeouts, Config, Key, Aerospike}
use as_proxyd.Common.{
  ℕ, zero, suc, length, Bool, true, false, not, ◌||◌, List, [], ◌∷◌, map, Option, none, some,
  if◌then◌else◌, ◌==◌, Bytes, codes, ℤ, pos, negsuc, eq_ℤ, to_u32, until_nul,
}
use as_proxyd.Gzip.{Zlib}
use as_proxyd.Jansson.{Jansson}
use Convert.{data_convert_to_json_v1}
use Store.{put_bins}

-- `as_err_.code`, `isalive_` and `as_config_`, by which the client `as_` is known.
pub record AsObject : Type 0 where
  pub config : Config
  pub err_code : ℤ
  pub isalive : Bool

module _ (A : Aerospike) where
  -- A call that fails leaves its status in `as_err_`.
  abbrev pub noted : ℤ → AsObject → AsObject
  noted st o = if eq_ℤ st A.aerospike_ok then o else record o { err_code = st }

  -- `as_error_reset`.
  abbrev pub error_reset : AsObject → AsObject
  error_reset o = record o { err_code = A.aerospike_ok }

  -- `as_key_init`, of the C strings.
  abbrev pub key_init : Key → Key
  key_init k = record { ns = until_nul k.ns; set = until_nul k.set; key = until_nul k.key }

  abbrev add_hosts : List Bytes → ℤ → List (Bytes × ℤ)
  add_hosts servers port = map (λ s. (until_nul s, port)) servers

  -- `AS_OBJECT_RECONNECT`.
  unfoldable pub reconnect : AsObject → A.Cluster → AsObject × A.Cluster
  reconnect o w =
      let (st, w') = A.aerospike_connect o.config w in
      (record (noted st (error_reset o)) { isalive = eq_ℤ st A.aerospike_ok }, w')

  -- The constructor, on the servers as `random_shuffle` left them. What it does behind the settings
  -- is what `AS_OBJECT_RECONNECT` does.
  unfoldable pub new_as_object : List Bytes → ℤ → ℤ → A.Cluster → AsObject × A.Cluster
  unfolding reconnect
  new_as_object servers port timeout_ms w =
      let t = to_u32 timeout_ms in
      let c : Config = record {
        hosts = add_hosts servers port;
        timeouts = A.policies_init (record { read = t; apply = t });
      } in
      reconnect (record { config = c; err_code = A.aerospike_ok; isalive = false }) w

  -- The destructor. Whether `aerospike_close` succeeds or not, `aerospike_destroy` then frees the client.
  unfoldable pub delete_object : AsObject → A.Cluster → A.Cluster
  delete_object o w = (A.aerospike_close o.config w).1

  -- `AS_OBJECT_STATUS`: does the cluster answer a read of some key?
  unfoldable pub status_of : AsObject → A.Cluster → Bool × AsObject × A.Cluster
  status_of o w =
      let k : Key = record { ns = codes "ns"; set = codes "set"; key = codes "key" } in
      if o.isalive
      then (let (st, r, w') = A.aerospike_key_get o.config k w in
          (
            not (eq_ℤ st A.err_param || eq_ℤ st A.err_client || eq_ℤ st A.aerospike_err),
            noted st o,
            w',
          ))
      else (false, o, w)

  -- `isAliveAsServer`. A timeout is tested first, and changes nothing.
  unfoldable pub is_alive_as_server : AsObject → Bool × AsObject
  is_alive_as_server o =
      let lost =
        eq_ℤ o.err_code A.err_client
        || eq_ℤ o.err_code A.err_cluster_change
        || eq_ℤ o.err_code A.err_cluster
        || eq_ℤ o.err_code A.err_invalid_host in
      let alive =
        if eq_ℤ o.err_code A.err_timeout then o.isalive else if lost then false else o.isalive in
      (alive, record o { isalive = alive })

  -- `REMOVE`.
  unfoldable pub remove : Key → AsObject → A.Cluster → ℤ × AsObject × A.Cluster
  remove k o w =
      if o.isalive
      then (let (st, w') = A.aerospike_key_remove o.config (key_init k) w in
          (st, noted st (error_reset o), w'))
      else (negsuc 0, o, w)

  module _ (J : Jansson) (gunzip : Bytes → Option Bytes) where
    open J use {Json}

    -- What `GET` leaves in its arguments.
    pub record Got : Type 0 where
      pub bins : Json
      pub ttl : ℕ
      pub gen : ℕ

    abbrev pub Outcome : Type 0
    Outcome = Option (ℤ × Got × AsObject × A.Cluster)

    abbrev pub found : ℤ → AsRecord → AsObject → A.Cluster → Option Json → Outcome
    found st r o w none = none
    found st r o w (some bins) = some (st, record { bins = bins; ttl = r.ttl; gen = r.gen }, o, w)

    -- `GET`; `none` is undefined behaviour.
    unfoldable pub get : Key → Got → AsObject → A.Cluster → Outcome
    get k g o w =
        if o.isalive
        then (let (st, r, w') = A.aerospike_key_get o.config (key_init k) w in
            let o' = noted st (error_reset o) in
            if eq_ℤ st A.aerospike_ok
            then found st r o' w' (data_convert_to_json_v1 J gunzip r.bins g.bins)
            else some (st, g, o', w'))
        else some (negsuc 0, g, o, w)

    abbrev to_put :
        ℤ
        → Key
        → AsObject
        → A.Cluster
        → ℕ
        → Option (List (Bytes × AsValue))
        → Option (ℤ × AsObject × A.Cluster)
    to_put ttl k o w count none = none
    to_put ttl k o w zero (some bs) = some (A.err_query, error_reset o, w)
    to_put ttl k o w (suc n) (some bs) =
        let r : AsRecord = record { bins = bs; gen = 0; ttl = to_u32 ttl } in
        let (st, w') = A.aerospike_key_put o.config (key_init k) r w in
        some (st, noted st (error_reset o), w')

    -- `PUT`. A `ttl` of 0 is not stored, which leaves the 0 of a new record. Each member is counted,
    -- also one that is not stored.
    unfoldable pub put :
        (J.Real → Bytes) → Key → Json → ℤ → AsObject → A.Cluster → Option (ℤ × AsObject × A.Cluster)
    put streamed k json ttl o w =
        if o.isalive
        then (if J.json_object_size json == 0
            then some (pos 0, o, w)
            else to_put ttl k o w (length (J.members json))
                (put_bins J A.is_bin_name streamed (J.members json)))
        else some (negsuc 0, o, w)

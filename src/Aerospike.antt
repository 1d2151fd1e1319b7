-- ===== src/Aerospike.antt =====
-- What the code uses of the Aerospike C client, which is not in the repository: the cluster as a
-- state, the calls on it, and the values of a record's bins.
pub mod Model
use as_proxyd.Common.{ℕ, Bool, List, Option, Bytes, ℤ}

-- The value of a bin by its `as_val_type`. An `as_string` may have no text. A list and a map carry the
-- text that `as_val_tostring` gives for them; `nil` and all other types are `other`.
pub data AsValue : Type 0 where
  boolean : Bool → AsValue
  integer : ℤ → AsValue
  string : Option Bytes → AsValue
  bytes : Bytes → AsValue
  list : Bytes → AsValue
  map : Bytes → AsValue
  nil : AsValue
  other : AsValue

pub record AsRecord : Type 0 where
  pub bins : List (Bytes × AsValue)
  pub gen : ℕ
  pub ttl : ℕ

-- The two timeouts that the code sets among the policies.
pub record Timeouts : Type 0 where
  pub read : ℕ
  pub apply : ℕ

pub record Config : Type 0 where
  pub hosts : List (Bytes × ℤ)
  pub timeouts : Timeouts

-- Namespace, set and key.
pub record Key : Type 0 where
  pub ns : Bytes
  pub set : Bytes
  pub key : Bytes

-- A call returns its status. A client is known by its configuration.
pub record Aerospike : Type 1 where
  pub Cluster : Type 0
  pub aerospike_ok : ℤ
  pub aerospike_err : ℤ
  pub err_param : ℤ
  pub err_client : ℤ
  pub err_timeout : ℤ
  pub err_query : ℤ
  pub err_cluster : ℤ
  pub err_cluster_change : ℤ
  pub err_invalid_host : ℤ
  -- Whether `as_record_set_int64` and its kin take the name: they fail on one that is too long for a bin.
  pub is_bin_name : Bytes → Bool
  pub policies_init : Timeouts → Timeouts
  pub aerospike_connect : Config → Cluster → ℤ × Cluster
  pub aerospike_key_get : Config → Key → Cluster → ℤ × AsRecord × Cluster
  pub aerospike_key_put : Config → Key → AsRecord → Cluster → ℤ × Cluster
  pub aerospike_key_remove : Config → Key → Cluster → ℤ × Cluster
  pub aerospike_close : Config → Cluster → ℤ × Cluster

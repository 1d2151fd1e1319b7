-- ===== src/Aerospike/Model.antt =====
-- A cluster that fits what is assumed of the Aerospike client, for the witnesses.
use as_proxyd.Aerospike.{AsValue, AsRecord, Aerospike}
use as_proxyd.Common.{ltb, length, ℕ, suc, ◌∷◌, codes, [], Option, none, some, ℤ, pos, negsuc}

abbrev pub looked_up : Option AsRecord → ℤ × AsRecord × Option AsRecord
looked_up none = (pos 2, record { bins = []; gen = 0; ttl = 0 }, none)
looked_up (some r) = (pos 0, r, some r)

-- The cluster holds one record at most; it always answers.
abbrev pub toy : Aerospike
toy = record {
  Cluster = Option AsRecord;
  aerospike_ok = pos 0;
  aerospike_err = pos 100;
  err_param = pos 4;
  err_client = negsuc 0;
  err_timeout = pos 9;
  err_query = pos 213;
  err_cluster = pos 11;
  err_cluster_change = pos 7;
  err_invalid_host = negsuc 3;
  is_bin_name = λ k. ltb (length k) 16;
  policies_init = λ t. t;
  aerospike_connect = λ c w. (pos 0, w);
  aerospike_key_get = λ c k w. looked_up w;
  aerospike_key_put = λ c k r w. (pos 0, some r);
  aerospike_key_remove = λ c k w. (pos 0, none);
  aerospike_close = λ c w. (pos 0, w);
}

-- A cluster of which every key has the same record; its state counts the reads, and the clients that
-- were closed.
abbrev pub fixed : Aerospike
fixed = record {
  Cluster = ℕ;
  aerospike_ok = pos 0;
  aerospike_err = pos 100;
  err_param = pos 4;
  err_client = negsuc 0;
  err_timeout = pos 9;
  err_query = pos 213;
  err_cluster = pos 11;
  err_cluster_change = pos 7;
  err_invalid_host = negsuc 3;
  is_bin_name = λ k. ltb (length k) 16;
  policies_init = λ t. t;
  aerospike_connect = λ c w. (pos 0, w);
  aerospike_key_get = λ c k w. (
    pos 0,
    record {
      bins =
          (codes "age", AsValue.integer (pos 7))
          ∷ (codes "tag", AsValue.string (some (codes "!x")))
          ∷ [];
      gen = 1;
      ttl = 60;
    },
    suc w,
  );
  aerospike_key_put = λ c k r w. (pos 0, w);
  aerospike_key_remove = λ c k w. (pos 0, w);
  aerospike_close = λ c w. (pos 0, suc w);
}

-- A cluster that cannot be reached.
abbrev pub down : Aerospike
down = record fixed {
  aerospike_connect = λ c w. (negsuc 0, w);
  aerospike_key_get = λ c k w. (negsuc 0, record { bins = []; gen = 0; ttl = 0 }, w);
}

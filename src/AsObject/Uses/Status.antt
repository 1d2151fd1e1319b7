-- ===== src/AsObject/Uses/Status.antt =====
-- What `AS_OBJECT_STATUS` (include/as_object.hpp) acquires and gives back.
use as_proxyd.Aerospike.{Key, Aerospike}
use as_proxyd.AsObject.{AsObject}
use as_proxyd.Common.{Bool, ◌&&◌, List, [], ◌∷◌, some, ◌≡◌, arith, if◌then◌else◌, codes, eq_ℤ}
use as_proxyd.Ownership.{Name, key, rec, Use, acquires, releases, owns, without, run_uses}

abbrev pub status_key : Key
status_key = record { ns = codes "ns"; set = codes "set"; key = codes "key" }

module _ (A : Aerospike) where
  -- The status is OK, and the record has been filled.
  abbrev pub reads_record : AsObject → A.Cluster → Bool
  reads_record o w = eq_ℤ (A.aerospike_key_get o.config status_key w).0 A.aerospike_ok

  -- The record is not given back.
  unfoldable pub status_uses : AsObject → A.Cluster → List Use
  status_uses o w =
      if o.isalive
      then (if reads_record o w
          then acquires key ∷ acquires rec ∷ releases key ∷ []
          else acquires key ∷ releases key ∷ [])
      else []

  pub status_uses_lem :
      (a : AsObject) (w : A.Cluster) (o : List Name)
      → run_uses (status_uses a w) o ≡ some (if a.isalive && reads_record a w then rec ∷ o else o)
  unfolding status_uses run_uses owns without
  status_uses_lem a w o = ground arith

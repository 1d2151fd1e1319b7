-- ===== src/AsObject/Again.antt =====
-- `PUT` and then `GET` of one key (include/as_object.hpp), over a cluster that adds the new bins to those
-- that it keeps.
use as_proxyd.Aerospike.{AsValue, AsRecord, Key, Aerospike}
use as_proxyd.AsObject.{AsObject, Got, put, get, key_init, error_reset}
use as_proxyd.AsObject.Convert.Members.{IsReadable, last_shown, Holds, data_convert-Holds}
use as_proxyd.AsObject.Store.{put_bins}
use as_proxyd.AsObject.Store.Returned.{AllSurvive, last_returned, Stored, put_bins-Stored}
use as_proxyd.Common.{
  ℕ, suc, length, true, false, List, [], ◌∷◌, ◌++◌, Option, none, some, ◌≡◌, refl, ◌∙◌, ap, ◌==◌,
  All, Bytes, ℤ, to_u32, eq_ℤ_iff,
}
use as_proxyd.Jansson.{Jansson}

module _ (A : Aerospike) (J : Jansson) (gunzip : Bytes → Option Bytes) where
  -- A read that finds a record fills the object with what the record's bins show.
  pub get-found :
      (k : Key) (g : Got A J gunzip) (o : AsObject) (w v : A.Cluster) (rec : AsRecord)
      (f : Bytes → Option J.Json)
      → o.isalive ≡ true
      → A.aerospike_key_get o.config (key_init A k) w ≡ (A.aerospike_ok, rec, v)
      → All (IsReadable J gunzip) rec.bins
      → Holds J gunzip g.bins f
      → (bins : J.Json) × (get A J gunzip k g o w
          ≡ some (
            A.aerospike_ok,
            record { bins = bins; ttl = rec.ttl; gen = rec.gen },
            error_reset A o,
            v,
          ))
        × Holds J gunzip bins (λ j. last_shown J gunzip rec.bins j (f j))
  unfolding get
  get-found k g o w v rec f alive e readable h =
      let (bins, c, h') = data_convert-Holds J gunzip rec.bins g.bins f readable h in
      (bins, rw alive (rw e (rw ((eq_ℤ_iff A.aerospike_ok A.aerospike_ok).1 refl) (rw c refl))), h')

module _ (A : Aerospike) (J : Jansson) (gunzip : Bytes → Option Bytes)
    (streamed : J.Real → Bytes) where
  last_shown-append :
      (first bs : List (Bytes × AsValue)) (k : Bytes) (old : Option J.Json)
      → last_shown J gunzip (first ++ bs) k old
        ≡ last_shown J gunzip bs k (last_shown J gunzip first k old)
  last_shown-append [] bs k old = refl
  last_shown-append ((name, v) ∷ first) bs k old = last_shown-append first bs k _

  IsReadable-append :
      (first bs : List (Bytes × AsValue))
      → All (IsReadable J gunzip) first
      → All (IsReadable J gunzip) bs
      → All (IsReadable J gunzip) (first ++ bs)
  IsReadable-append [] bs a b = b
  IsReadable-append (x ∷ first) bs (h, a) b = (h, IsReadable-append first bs a b)

  -- The record that `PUT` sends.
  abbrev pub sent : List (Bytes × AsValue) → ℤ → AsRecord
  sent bs ttl = record { bins = bs; gen = 0; ttl = to_u32 ttl }

  -- A member is counted where there is a bin.
  put_bins-counted :
      (ms : List (Bytes × J.Json)) (b : Bytes × AsValue) (bs : List (Bytes × AsValue))
      → put_bins J A.is_bin_name streamed ms ≡ some (b ∷ bs)
      → (n : ℕ) × (length ms ≡ suc n)
  unfolding put_bins
  put_bins-counted [] b bs e = cc
  put_bins-counted (m ∷ ms) b bs e = (length ms, refl)

  put-sent :
      (k : Key) (json : J.Json) (ttl : ℤ) (o : AsObject) (w v : A.Cluster) (b : Bytes × AsValue)
      (bs : List (Bytes × AsValue))
      → o.isalive ≡ true
      → (J.json_object_size json == 0) ≡ false
      → put_bins J A.is_bin_name streamed (J.members json) ≡ some (b ∷ bs)
      → A.aerospike_key_put o.config (key_init A k) (sent (b ∷ bs) ttl) w ≡ (A.aerospike_ok, v)
      → put A J gunzip streamed k json ttl o w ≡ some (A.aerospike_ok, error_reset A o, v)
  unfolding put
  put-sent k json ttl o w v b bs alive size e p =
      let (n, c) = put_bins-counted (J.members json) b bs e in
      rw alive
        (rw size (rw e (rw c (rw p (rw ((eq_ℤ_iff A.aerospike_ok A.aerospike_ok).1 refl) refl)))))

  -- An object is put, and its key is read after it. The client is alive, the object is not empty and its
  -- members come back (`AllSurvive`); the cluster takes the record, and when it is asked for the key it
  -- gives the new bins behind others, which it kept and whose bytes hold a NUL. Then both calls
  -- succeed, and the object that `GET` fills has each member of the one that was put, as it comes
  -- back, and under the other keys what the kept bins show.
  pub get-put :
      (k : Key) (json : J.Json) (ttl : ℤ) (o : AsObject) (w v x : A.Cluster) (rec : AsRecord)
      (b : Bytes × AsValue) (bs kept : List (Bytes × AsValue))
      → o.isalive ≡ true
      → (J.json_object_size json == 0) ≡ false
      → AllSurvive J A.is_bin_name streamed gunzip (J.members json)
      → put_bins J A.is_bin_name streamed (J.members json) ≡ some (b ∷ bs)
      → A.aerospike_key_put o.config (key_init A k) (sent (b ∷ bs) ttl) w ≡ (A.aerospike_ok, v)
      → A.aerospike_key_get o.config (key_init A k) v ≡ (A.aerospike_ok, rec, x)
      → rec.bins ≡ kept ++ (b ∷ bs)
      → All (IsReadable J gunzip) kept
      → (put A J gunzip streamed k json ttl o w ≡ some (A.aerospike_ok, error_reset A o, v))
        × (bins : J.Json) × (get A J gunzip k
              (record { bins = J.json_object; ttl = 0; gen = 0 })
              (error_reset A o)
              v
            ≡ some (
              A.aerospike_ok,
              record { bins = bins; ttl = rec.ttl; gen = rec.gen },
              error_reset A o,
              x,
            ))
        × Holds J gunzip bins (λ j.
          last_returned J A.is_bin_name streamed gunzip
            (J.members json)
            j
            (last_shown J gunzip kept j none))
  get-put k json ttl o w v x rec b bs kept alive size s e p g q r =
      let t : Stored J A.is_bin_name streamed gunzip (J.members json) (some (b ∷ bs)) =
        rw e at (put_bins-Stored J A.is_bin_name streamed gunzip (J.members json) s) in
      let a : All (IsReadable J gunzip) rec.bins = rw q (IsReadable-append kept (b ∷ bs) r t.0) in
      let (bins, f, h) =
        get-found A J gunzip k (record { bins = J.json_object; ttl = 0; gen = 0 }) (error_reset A o)
          v x rec (λ j. none) alive g a (J.typeof-json_object, J.get-json_object) in
      (
        put-sent k json ttl o w v b bs alive size e p,
        bins,
        f,
        (
          h.0,
          λ j.
              h.1 j
              ∙ ap (λ l. last_shown J gunzip l j none) q
              ∙ last_shown-append kept (b ∷ bs) j none
              ∙ t.1 j _,
        ),
      )

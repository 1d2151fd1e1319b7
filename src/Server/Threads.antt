-- ===== src/Server/Threads.antt =====
-- The maps that hold an entry for each thread of the pool (src/server.cpp, include/as_control.hpp).
use as_proxyd.Aerospike.{Aerospike}
use as_proxyd.AsObject.{AsObject}
use as_proxyd.Common.{
  ℕ, zero, suc, get_elem?, ap, ◌+◌, Bool, true, false, List, [], ◌∷◌, some, ◌≡◌, refl, ◌∙◌, arith,
  ◌==◌, All, Bytes,
}
use as_proxyd.Control.{Control, lookup, assign, get_as_object, initialize, check_objects}
use as_proxyd.Control.Pool.{
  lookup-assign, lookup-assign_same, get_as_object-old, get_as_object-initialize,
}
use as_proxyd.Server.{register}

-- A map that has an entry for the thread.
abbrev pub Holds {ℓ} : {V : Type ℓ} → ℕ → List (ℕ × V) → Type ℓ
Holds {V = V} id m = (v : V) × (lookup id m ≡ some v)

assign-Holds {ℓ} :
    {V : Type ℓ} (j k : ℕ) (v : V) (m : List (ℕ × V)) → Holds j m → Holds j (assign k v m)
assign-Holds j k v m (u, e) = chosen (k == j) refl
  where
    chosen : (b : Bool) → (k == j) ≡ b → Holds j (assign k v m)
    chosen true q = (v, lookup-assign j k v m ∙ rw q refl)
    chosen false q = (u, lookup-assign j k v m ∙ rw q e)

pub assign-All {ℓ} :
    {V : Type ℓ} (ids : List ℕ) (k : ℕ) (v : V) (m : List (ℕ × V))
    → All (λ id. Holds id m) ids
    → All (λ id. Holds id (assign k v m)) ids
assign-All [] k v m a = tt
assign-All (id ∷ ids) k v m (h, a) = (assign-Holds id k v m h, assign-All ids k v m a)

register-Holds :
    (i j : ℕ) (ids : List ℕ) (m : List (ℕ × ℕ)) → Holds j m → Holds j (register i ids m)
unfolding register
register-Holds i j [] m h = h
register-Holds i j (id ∷ ids) m h =
    register-Holds (i + 1) j ids (assign id i m) (assign-Holds j id i m h)

pub register-All :
    (i : ℕ) (ids : List ℕ) (m : List (ℕ × ℕ)) → All (λ id. Holds id (register i ids m)) ids
unfolding register
register-All i [] m = tt
register-All i (id ∷ ids) m = (
  register-Holds (i + 1) id ids (assign id i m) (i, lookup-assign_same id i m),
  register-All (i + 1) ids (assign id i m),
)

-- The threads that have an entry, in the order of the map.
unfoldable pub keys {ℓ} : {V : Type ℓ} → List (ℕ × V) → List ℕ
keys [] = []
keys ((id, v) ∷ m) = id ∷ keys m

pub keys-assign {ℓ} :
    {V : Type ℓ} (k : ℕ) (u v : V) (m : List (ℕ × V))
    → lookup k m ≡ some u
    → keys (assign k v m) ≡ keys m
unfolding keys lookup assign
keys-assign k u v [] e = cc
keys-assign k u v ((j, x) ∷ m) e = ground (arith, keys-assign k u v m)

pub keys-check_objects :
    (A : Aerospike) (m : List (ℕ × AsObject)) (w : A.Cluster)
    → keys (check_objects A m w).0 ≡ keys m
unfolding keys check_objects
keys-check_objects A [] w = refl
keys-check_objects A ((id, o) ∷ m) w = ap (◌∷◌ id) (keys-check_objects A m _)

-- A thread of a list that all have an entry.
pub get-Holds {ℓ} :
    {V : Type ℓ} (ids : List ℕ) (m : List (ℕ × V)) (i id : ℕ)
    → All (λ j. Holds j m) ids
    → get_elem? ids i ≡ some id
    → Holds id m
get-Holds [] m i id a e = cc
get-Holds (j ∷ ids) m zero id (h, a) e = let (v, f) = h in (v, cc)
get-Holds (j ∷ ids) m (suc i) id (h, a) e = get-Holds ids m i id a e

module _ (A : Aerospike) (shuffle : A.Cluster → List Bytes → List Bytes) where
  check_objects-cons :
      (id j : ℕ) (o u : AsObject) (m : List (ℕ × AsObject)) (w : A.Cluster) (b : Bool)
      → (j == id) ≡ b
      → lookup id ((j, o) ∷ m) ≡ some u
      → ((w' : A.Cluster) → lookup id m ≡ some u → Holds id (check_objects A m w').0)
      → Holds id (check_objects A ((j, o) ∷ m) w).0
  unfolding check_objects lookup
  check_objects-cons id j o u m w true q e f = rw (q, lookup) (_, refl)
  check_objects-cons id j o u m w false q e f = rw (q, lookup) (f _ (ground arith))

  check_objects-Holds :
      (id : ℕ) (m : List (ℕ × AsObject)) (w : A.Cluster) (u : AsObject)
      → lookup id m ≡ some u
      → Holds id (check_objects A m w).0
  unfolding check_objects lookup
  check_objects-Holds id [] w u e = cc
  check_objects-Holds id ((j, o) ∷ m) w u e =
      check_objects-cons id j o u m w (j == id) refl e (λ w' e'. check_objects-Holds id m w' u e')

  pub check_objects-All :
      (ids : List ℕ) (m : List (ℕ × AsObject)) (w : A.Cluster)
      → All (λ id. Holds id m) ids
      → All (λ id. Holds id (check_objects A m w).0) ids
  check_objects-All [] m w a = tt
  check_objects-All (id ∷ ids) m w ((u, e), a) =
      (check_objects-Holds id m w u e, check_objects-All ids m w a)

  pub extends-All :
      (ids : List ℕ) (m m' : List (ℕ × AsObject))
      → ((id : ℕ) (o : AsObject) → lookup id m ≡ some o → lookup id m' ≡ some o)
      → All (λ id. Holds id m) ids
      → All (λ id. Holds id m') ids
  extends-All [] m m' f a = tt
  extends-All (id ∷ ids) m m' f ((o, e), a) = ((o, f id o e), extends-All ids m m' f a)

  pub initialize-All :
      (ids : List ℕ) (c : Control) (w : A.Cluster)
      → All (λ id. Holds id c.threads) ids
      → All (λ id. Holds id (initialize A shuffle c w).0.objects) ids
  initialize-All [] c w a = tt
  initialize-All (id ∷ ids) c w ((i, e), a) =
      ((get_as_object-initialize A shuffle id i c w w e).0, initialize-All ids c w a)

  pub quiet :
      (ids : List ℕ) (c : Control) (w : A.Cluster)
      → All (λ id. Holds id c.objects) ids
      → All (λ id. get_as_object A shuffle id c w ≡ (c, w)) ids
  quiet [] c w a = tt
  quiet (id ∷ ids) c w (h, a) = (get_as_object-old A shuffle id c w h, quiet ids c w a)

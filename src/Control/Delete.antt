-- ===== src/Control/Delete.antt =====
-- `~AS_CONTROL` (include/as_control.hpp): what becomes of the clients at the end.
use as_proxyd.Aerospike.{Aerospike}
use as_proxyd.AsObject.{AsObject, delete_object}
use as_proxyd.Common.{
  ℕ, false, List, [], ◌∷◌, Option, none, some, ◌≡◌, refl, ◌∙◌, arith, ◌==◌, All, ==_iff,
}
use as_proxyd.Control.{Control, lookup, assign, all_live, delete_objects, delete_control}
use as_proxyd.Control.Pool.{lookup-assign}
use as_proxyd.Server.Threads.{keys}

-- A thread that is none of a list,
abbrev pub IsFresh : ℕ → List ℕ → Type 0
IsFresh id ids = All (λ j. (j == id) ≡ false) ids

-- and no two of a list are the same.
abbrev pub IsDistinct : List ℕ → Type 0
IsDistinct [] = Unit
IsDistinct (id ∷ ids) = IsFresh id ids × IsDistinct ids

module _ (A : Aerospike) where
  -- Each client is closed once, in the order of the map.
  abbrev pub close_all : List (ℕ × AsObject) → A.Cluster → A.Cluster
  close_all [] w = w
  close_all ((id, o) ∷ m) w = close_all m (delete_object A o w)

  -- The entries of a list are in the map, and not deleted.
  abbrev IsLive : List (ℕ × AsObject) → List (ℕ × Option AsObject) → Type 0
  IsLive l m = All (λ e. lookup e.0 m ≡ some (some e.1)) l

  lookup-other {ℓ} :
      {V : Type ℓ} (k j : ℕ) (v : V) (m : List (ℕ × V))
      → (j == k) ≡ false
      → lookup j (assign k v m) ≡ lookup j m
  lookup-other k j v m e = ground (arith, lookup-assign j k v m, ==_iff j k, ==_iff k j)

  assign-IsLive :
      (k : ℕ) (l : List (ℕ × AsObject)) (m : List (ℕ × Option AsObject))
      → IsFresh k (keys l)
      → IsLive l m
      → IsLive l (assign k none m)
  unfolding keys
  assign-IsLive k [] m f v = tt
  assign-IsLive k ((id, o) ∷ l) m (e, f) (h, v) =
      (lookup-other k id none m e ∙ h, assign-IsLive k l m f v)

  delete_objects-close_all :
      (l : List (ℕ × AsObject)) (m : List (ℕ × Option AsObject)) (w : A.Cluster)
      → IsDistinct (keys l)
      → IsLive l m
      → delete_objects A l m w ≡ some (close_all l w)
  unfolding delete_objects keys
  delete_objects-close_all [] m w d v = refl
  delete_objects-close_all ((id, o) ∷ l) m w (f, d) (h, v) =
      rw (h, delete_objects)
        (delete_objects-close_all l (assign id none m) (delete_object A o w) d
          (assign-IsLive id l m f v))

  cons-IsLive :
      (k : ℕ) (u : Option AsObject) (l : List (ℕ × AsObject)) (m : List (ℕ × Option AsObject))
      → IsFresh k (keys l)
      → IsLive l m
      → IsLive l ((k, u) ∷ m)
  unfolding keys lookup
  cons-IsLive k u [] m f v = tt
  cons-IsLive k u ((id, o) ∷ l) m (e, f) (h, v) =
      (ground (arith, ==_iff k id, ==_iff id k), cons-IsLive k u l m f v)

  all_live-IsLive : (m : List (ℕ × AsObject)) → IsDistinct (keys m) → IsLive m (all_live A m)
  unfolding keys lookup
  all_live-IsLive [] d = tt
  all_live-IsLive ((id, o) ∷ m) (f, d) =
      (ground arith, cons-IsLive id (some o) m (all_live A m) f (all_live-IsLive m d))

  -- The destructor deletes no object twice, and closes the client of each.
  pub delete_control-close_all :
      (c : Control) (w : A.Cluster)
      → IsDistinct (keys c.objects)
      → delete_control A c w ≡ some (close_all c.objects w)
  unfolding delete_control
  delete_control-close_all c w d =
      delete_objects-close_all c.objects (all_live A c.objects) w d (all_live-IsLive c.objects d)

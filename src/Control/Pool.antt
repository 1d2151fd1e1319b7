-- ===== src/Control/Pool.antt =====
-- The pool of threads: what `Initialize` (include/as_control.hpp) gives each of them.
use as_proxyd.Aerospike.{Aerospike}
use as_proxyd.AsObject.{AsObject, new_as_object}
use as_proxyd.Common.{
  ℕ, Bool, true, false, List, [], ◌∷◌, Option, none, some, ◌≡◌, refl, ◌∙◌, arith, ◌==◌, ==_iff,
  if◌then◌else◌, Bytes,
}
use as_proxyd.Control.{
  lookup, assign, Control, add_object, get_as_object, initialize_from, initialize,
}

pub lookup-assign {ℓ} :
    {V : Type ℓ} (j k : ℕ) (v : V) (m : List (ℕ × V))
    → lookup j (assign k v m) ≡ (if k == j then some v else lookup j m)
unfolding lookup assign
lookup-assign j k v [] = refl
lookup-assign j k v ((i, u) ∷ m) = ground (arith, lookup-assign j k v m)

lookup-assign_other {ℓ} :
    {V : Type ℓ} (j k : ℕ) (u v : V) (m : List (ℕ × V))
    → lookup k m ≡ none
    → lookup j m ≡ some u
    → lookup j (assign k v m) ≡ some u
unfolding lookup assign
lookup-assign_other j k u v [] e h = cc
lookup-assign_other j k u v ((i, x) ∷ m) e h = ground (arith, lookup-assign_other j k u v m)

pub lookup-assign_same {ℓ} :
    {V : Type ℓ} (k : ℕ) (v : V) (m : List (ℕ × V)) → lookup k (assign k v m) ≡ some v
unfolding lookup assign
lookup-assign_same k v [] = ground arith
lookup-assign_same k v ((i, x) ∷ m) = ground (arith, lookup-assign_same k v m)

-- A property of the threads of a list.
lookup-each :
    (P : ℕ → Type 0) (j x : ℕ) (ts : List (ℕ × ℕ)) (id i : ℕ) (b : Bool)
    → (j == id) ≡ b
    → P j
    → (lookup id ts ≡ some i → P id)
    → lookup id ((j, x) ∷ ts) ≡ some i
    → P id
unfolding lookup
lookup-each P j x ts id i true e p f h = rw (← (==_iff j id).0 e) p
lookup-each P j x ts id i false e p f h = f (ground arith)

-- A thread that has an object.
abbrev pub Has : ℕ → List (ℕ × AsObject) → Type 0
Has id m = (o : AsObject) × (lookup id m ≡ some o)

module _ (A : Aerospike) (shuffle : A.Cluster → List Bytes → List Bytes) where
  -- Nothing that was there is lost or replaced.
  abbrev pub Extends : Control → Control → Type 0
  Extends c c' =
      (id : ℕ) (o : AsObject) → lookup id c.objects ≡ some o → lookup id c'.objects ≡ some o

  pub get_as_object-old :
      (id : ℕ) (c : Control) (w : A.Cluster)
      → Has id c.objects
      → get_as_object A shuffle id c w ≡ (c, w)
  unfolding get_as_object
  get_as_object-old id c w (o, e) = rw (e, get_as_object) refl

  add_object-Extends :
      (id : ℕ) (c : Control) (w : A.Cluster)
      → lookup id c.objects ≡ none
      → Extends c (add_object A shuffle id c w).0 × Has id (add_object A shuffle id c w).0.objects
  unfolding add_object
  add_object-Extends id c w e =
      let o = (new_as_object A (shuffle w c.server_list) c.port c.timeout w).0 in
      (λ j u h. lookup-assign_other j id u o c.objects e h, (o, lookup-assign_same id o c.objects))

  pub get_as_object-Extends :
      (id : ℕ) (c : Control) (w : A.Cluster) (q : Option AsObject)
      → lookup id c.objects ≡ q
      → Extends c (get_as_object A shuffle id c w).0
        × Has id (get_as_object A shuffle id c w).0.objects
  unfolding get_as_object
  get_as_object-Extends id c w (some o) e = rw (e, get_as_object) (λ j u h. h, (o, e))
  get_as_object-Extends id c w none e = rw (e, get_as_object) (add_object-Extends id c w e)

  get_as_object-threads :
      (id : ℕ) (c : Control) (w : A.Cluster) (q : Option AsObject)
      → lookup id c.objects ≡ q
      → (get_as_object A shuffle id c w).0.threads ≡ c.threads
  unfolding get_as_object add_object
  get_as_object-threads id c w (some o) e = rw (e, get_as_object) refl
  get_as_object-threads id c w none e = rw (e, get_as_object) refl

  -- What a list of threads leads to.
  abbrev Covers : List (ℕ × ℕ) → Control → Control → Type 0
  Covers ts c c' =
      Extends c c'
      × (c'.threads ≡ c.threads)
      × ((id i : ℕ) → lookup id ts ≡ some i → Has id c'.objects)

  initialize_from-Covers :
      (ts : List (ℕ × ℕ)) (c : Control) (w : A.Cluster)
      → Covers ts c (initialize_from A shuffle ts c w).0
  unfolding initialize_from
  initialize_from-Covers [] c w = (λ id o h. h, refl, λ id i h. unfold lookup in cc)
  initialize_from-Covers ((j, x) ∷ ts) c w =
      let (c', w') = get_as_object A shuffle j c w in
      let (ext, h) = get_as_object-Extends j c w (lookup j c.objects) refl in
      let (ext', t, all) = initialize_from-Covers ts c' w' in
      (
        λ id o e. ext' id o (ext id o e),
        t ∙ get_as_object-threads j c w _ refl,
        λ id i e.
            lookup-each (λ k. Has k (initialize_from A shuffle ts c' w').0.objects) j x ts id i
              (j == id) refl (let (o, q) = h in (o, ext' j o q)) (all id i) e,
      )

  -- After `Initialize` every thread of the pool has its object, and those that had one kept it. From
  -- then on `GetAsObject` of these threads does not touch the map, nor the cluster.
  pub get_as_object-initialize :
      (id i : ℕ) (c : Control) (w w' : A.Cluster)
      → lookup id c.threads ≡ some i
      → Has id (initialize A shuffle c w).0.objects
        × Extends c (initialize A shuffle c w).0
        × (get_as_object A shuffle id (initialize A shuffle c w).0 w'
            ≡ ((initialize A shuffle c w).0, w'))
  unfolding initialize
  get_as_object-initialize id i c w w' e =
      let (ext, t, all) = initialize_from-Covers c.threads c w in
      (
        all id i e,
        ext,
        get_as_object-old id (initialize_from A shuffle c.threads c w).0 w' (all id i e),
      )

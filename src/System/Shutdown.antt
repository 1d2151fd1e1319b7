-- ===== src/System/Shutdown.antt =====
-- The end of the program (src/main.cpp): the clients that the run made are closed.
use as_proxyd.Aerospike.{Aerospike}
use as_proxyd.Boost.{Boost}
use as_proxyd.Common.{
  ℕ, ◌+◌, false, List, [], ◌∷◌, ◌++◌, append_assoc, none, some, ◌≡◌, refl, ◌∙◌, sym, ap, arith,
  ◌==◌, ==_iff, append-nil, All, Bytes, ℤ,
}
use as_proxyd.Control.{
  Control, new_control, lookup, assign, add_object, get_as_object, initialize_from, initialize,
}
use as_proxyd.Control.Delete.{IsFresh, IsDistinct, close_all, delete_control-close_all}
use as_proxyd.Env.{Env}
use as_proxyd.Server.{new_server, start_accept, register, run}
use as_proxyd.Server.Threads.{keys}
use as_proxyd.System.{System, Reach, started, shut_down}
use as_proxyd.System.Placed.{Reach-IsPlaced}

keys-assign_fresh {ℓ} :
    {V : Type ℓ} (k : ℕ) (v : V) (m : List (ℕ × V))
    → IsFresh k (keys m)
    → keys (assign k v m) ≡ keys m ++ k ∷ []
unfolding keys assign
keys-assign_fresh k v [] f = refl
keys-assign_fresh k v ((j, u) ∷ m) (e, f) = rw (e, assign) (ap (◌∷◌ j) (keys-assign_fresh k v m f))

lookup_fresh {ℓ} : {V : Type ℓ} (k : ℕ) (m : List (ℕ × V)) → IsFresh k (keys m) → lookup k m ≡ none
unfolding keys lookup
lookup_fresh k [] f = refl
lookup_fresh k ((j, u) ∷ m) (e, f) = rw (e, lookup) (lookup_fresh k m f)

All-middle : (P : ℕ → Type 0) (xs ys : List ℕ) (k : ℕ) → All P (xs ++ (k ∷ ys)) → P k
All-middle P [] ys k (p, a) = p
All-middle P (x ∷ xs) ys k (p, a) = All-middle P xs ys k a

IsDistinct-middle : (xs ys : List ℕ) (k : ℕ) → IsDistinct (xs ++ (k ∷ ys)) → IsFresh k xs
IsDistinct-middle [] ys k d = tt
IsDistinct-middle (x ∷ xs) ys k (f, d) =
    let e = All-middle (λ j. (j == x) ≡ false) xs ys k f in
    (ground (arith, ==_iff x k, ==_iff k x), IsDistinct-middle xs ys k d)

moved : (xs ys : List ℕ) (k : ℕ) → xs ++ (k ∷ ys) ≡ (xs ++ k ∷ []) ++ ys
moved xs ys k = sym (append_assoc xs (k ∷ []) ys)

keys-register :
    (i : ℕ) (ids : List ℕ) (m : List (ℕ × ℕ))
    → IsDistinct (keys m ++ ids)
    → keys (register i ids m) ≡ keys m ++ ids
unfolding register
keys-register i [] m d = sym (append-nil (keys m))
keys-register i (id ∷ ids) m d =
    let e = keys-assign_fresh id i m (IsDistinct-middle (keys m) ids id d) in
    keys-register (i + 1) ids (assign id i m) (rw (e, ← (moved (keys m) ids id)) d)
    ∙ rw e (sym (moved (keys m) ids id))

module _ (A : Aerospike) (shuffle : A.Cluster → List Bytes → List Bytes) where
  keys-get_as_object :
      (id : ℕ) (c : Control) (w : A.Cluster)
      → IsFresh id (keys c.objects)
      → keys (get_as_object A shuffle id c w).0.objects ≡ keys c.objects ++ id ∷ []
  unfolding get_as_object add_object
  keys-get_as_object id c w f =
      rw (lookup_fresh id c.objects f, get_as_object) (keys-assign_fresh id _ c.objects f)

  keys-initialize_from :
      (ts : List (ℕ × ℕ)) (c : Control) (w : A.Cluster)
      → IsDistinct (keys c.objects ++ keys ts)
      → keys (initialize_from A shuffle ts c w).0.objects ≡ keys c.objects ++ keys ts
  unfolding initialize_from keys
  keys-initialize_from [] c w d = sym (append-nil (keys c.objects))
  keys-initialize_from ((id, i) ∷ ts) c w d =
      let e = keys-get_as_object id c w (IsDistinct-middle (keys c.objects) (keys ts) id d) in
      let (c', w') = get_as_object A shuffle id c w in
      keys-initialize_from ts c' w' (rw (e, ← (moved (keys c.objects) (keys ts) id)) d)
      ∙ rw e (sym (moved (keys c.objects) (keys ts) id))

keys-started :
    (env : Env) (ids : List ℕ) (b : Boost) (servers : Bytes) (port timeout n : ℤ) (file : Bytes)
    (w : env.aerospike.Cluster)
    → IsDistinct ids
    → keys (started env ids (new_control b servers port timeout n file) w).server.control.objects
      ≡ ids
unfolding started run new_server start_accept initialize new_control keys
keys-started env ids b servers port timeout n file w d =
    let e = keys-register 0 ids [] d in
    keys-initialize_from env.aerospike env.shuffle (register 0 ids []) _ w (rw e d) ∙ e

-- The program starts as `main` starts it, with threads that have different ids, and runs in any way. At all times
-- there is one client for each thread and no other, and if `main` then comes to its end, the destructor
-- deletes none twice and closes each of them once.
pub Reach-shut_down :
    (env : Env) (ids : List ℕ) (b : Boost) (servers : Bytes) (port timeout n : ℤ) (file : Bytes)
    (w : env.aerospike.Cluster)
    → IsDistinct ids
    → (s : System env)
    → Reach env ids (started env ids (new_control b servers port timeout n file) w) s
    → (keys s.server.control.objects ≡ ids)
      × (shut_down env s ≡ some (close_all env.aerospike s.server.control.objects s.cluster))
unfolding shut_down
Reach-shut_down env ids b servers port timeout n file w d s r =
    let c = new_control b servers port timeout n file in
    let v = Reach-IsPlaced env ids c w s r in
    let e = v.places_kept ∙ keys-started env ids b servers port timeout n file w d in
    (e, delete_control-close_all env.aerospike s.server.control s.cluster (rw e d))

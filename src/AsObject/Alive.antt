-- ===== src/AsObject/Alive.antt =====
-- When an `AS_OBJECT` (include/as_object.hpp) reaches the cluster, and how it comes to be alive.
use as_proxyd.Aerospike.{Key, Aerospike}
use as_proxyd.AsObject.{AsObject, status_of, is_alive_as_server, remove, Got, get, put}
use as_proxyd.Common.{false, List, [], ◌∷◌, Option, none, some, ◌≡◌, refl, arith, Bytes, ℤ}
use as_proxyd.Jansson.{Jansson}

module _ (A : Aerospike) (J : Jansson) (gunzip : Bytes → Option Bytes) (show : J.Real → Bytes) where
  -- The calls on an object, but for `AS_OBJECT_RECONNECT`.
  pub data Call : Type 0 where
    gets : Key → Got A J gunzip → Call
    puts : Key → J.Json → ℤ → Call
    removes : Key → Call
    checks : Call
    asks : Call

  abbrev State : Type 0
  State = AsObject × A.Cluster

  abbrev after_get : Option (ℤ × Got A J gunzip × AsObject × A.Cluster) → Option State
  after_get none = none
  after_get (some (st, g, o, w)) = some (o, w)

  abbrev after_put : Option (ℤ × AsObject × A.Cluster) → Option State
  after_put none = none
  after_put (some (st, o, w)) = some (o, w)

  unfoldable pub call : Call → AsObject → A.Cluster → Option State
  call (gets k g) o w = after_get (get A J gunzip k g o w)
  call (puts k v ttl) o w = after_put (put A J gunzip show k v ttl o w)
  call (removes k) o w = let (st, o', w') = remove A k o w in some (o', w')
  call checks o w = let (b, o', w') = status_of A o w in some (o', w')
  call asks o w = some ((is_alive_as_server A o).1, w)

  unfoldable pub calls : List Call → AsObject → A.Cluster → Option State
  unfolding call
  calls [] o w = some (o, w)
  calls (c ∷ cs) o w = elim (call c o w) [ none ↦ none | some (o', w') ↦ calls cs o' w' ]

  call_dead :
      (c : Call) (o : AsObject) (w : A.Cluster) → o.isalive ≡ false → call c o w ≡ some (o, w)
  unfolding call get put remove status_of is_alive_as_server
  call_dead (gets k g) o w e = rw e
  call_dead (puts k v ttl) o w e = rw e
  call_dead (removes k) o w e = rw e
  call_dead checks o w e = rw e
  call_dead asks o w e = ground arith

  -- An object that is not alive stays as it is, and the cluster too, whatever is called on it, in any
  -- number and order, as long as nobody reconnects it.
  pub calls-dead :
      (cs : List Call) (o : AsObject) (w : A.Cluster)
      → o.isalive ≡ false
      → calls cs o w ≡ some (o, w)
  unfolding calls
  calls-dead [] o w e = refl
  calls-dead (c ∷ cs) o w e = rw (call_dead c o w e, calls) (calls-dead cs o w e)

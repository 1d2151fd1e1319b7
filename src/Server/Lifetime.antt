-- ===== src/Server/Lifetime.antt =====
-- What the handlers of the server (src/server.cpp) keep, between the start of the pool and the stop.
use as_proxyd.Aerospike.{Aerospike}
use as_proxyd.Common.{
  ℕ, suc, ◌<◌, Bool, true, false, not, List, [], ◌∷◌, ◌≡◌, refl, ◌∙◌, ap, arith, if◌then◌else◌, All,
  Bytes,
}
use as_proxyd.Control.{Control, check_as_servers_status}
use as_proxyd.Server.Threads.{Holds, register-All, check_objects-All, initialize-All}
use as_proxyd.Server.{
  Server, start_accept, new_server, handle_accept, handle_stop, register, handle_timer, run,
}

-- Until it is stopped, the server waits for the timer and for a client, with a connection that has
-- not been started; and every thread of the pool has its object.
pub record IsSound (ids : List ℕ) (s : Server) : Type 0 where
  pub stopped : s.is_handle_stop ≡ not s.running
  pub waits : s.running ≡ true → (s.timer ≡ true) × (s.accepting ≡ true)
  pub fresh : s.created ≡ suc s.new_connection
  pub before : All (λ n. n < s.new_connection) s.started
  pub covered : All (λ id. Holds id s.control.objects) ids

later : (n c : ℕ) (ns : List ℕ) → c ≡ suc n → All (λ k. k < n) ns → All (λ k. k < c) ns
later n c [] e a = tt
later n c (k ∷ ns) e (h, a) = (omega arith, later n c ns e a)

otherwise {ℓ κ} :
    {T : Type ℓ} (P : T → Type κ) (c : Bool) (x y : T) → c ≡ false → P y → P (if c then x else y)
otherwise P true x y e p = cc
otherwise P false x y e p = p

pub accept-IsSound :
    (ids : List ℕ) (s : Server) (failed : Bool)
    → IsSound ids s
    → IsSound ids (handle_accept failed s)
unfolding handle_accept start_accept
accept-IsSound ids s true i = record {
  stopped = i.stopped;
  waits = λ r. ((i.waits r).0, refl);
  fresh = refl;
  before = later s.new_connection s.created s.started i.fresh i.before;
  covered = i.covered;
}
accept-IsSound ids s false i = record {
  stopped = i.stopped;
  waits = λ r. ((i.waits r).0, refl);
  fresh = refl;
  before =
      (let f = i.fresh in omega arith, later s.new_connection s.created s.started i.fresh i.before);
  covered = i.covered;
}

pub stop-IsSound : (ids : List ℕ) (s : Server) → IsSound ids s → IsSound ids (handle_stop s)
unfolding handle_stop
stop-IsSound ids s i = record {
  stopped = refl;
  waits = λ q. cc;
  fresh = i.fresh;
  before = i.before;
  covered = i.covered;
}

module _ (A : Aerospike) (shuffle : A.Cluster → List Bytes → List Bytes) where
  pub timer-IsSound :
      (ids : List ℕ) (s : Server) (w : A.Cluster)
      → s.running ≡ true
      → IsSound ids s
      → IsSound ids (handle_timer A s w).0
  unfolding handle_timer check_as_servers_status
  timer-IsSound ids s w r i =
      otherwise (λ (q : Server × A.Cluster). IsSound ids q.0) s.is_handle_stop _ _
        (i.stopped ∙ ap not r)
        (record {
          stopped = i.stopped;
          waits = λ r'. (refl, (i.waits r').1);
          fresh = i.fresh;
          before = i.before;
          covered = check_objects-All A shuffle ids s.control.objects w i.covered;
        })

  pub run-IsSound :
      (ids : List ℕ) (c : Control) (w : A.Cluster)
      → IsSound ids (run A shuffle ids (new_server c) w).0
  unfolding run new_server start_accept
  run-IsSound ids c w = record {
    stopped = refl;
    waits = λ r. (refl, refl);
    fresh = refl;
    before = tt;
    covered =
        initialize-All A shuffle ids (record c { threads = register 0 ids c.threads }) w
          (register-All 0 ids c.threads);
  }

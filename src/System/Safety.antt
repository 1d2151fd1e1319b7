-- ===== src/System/Safety.antt =====
-- What holds while the program runs, in every state that it reaches.
use as_proxyd.Common.{ℕ, List, Option}
use as_proxyd.Connection.Life.{step-Outcome}
use as_proxyd.Control.{Control, lookup}
use as_proxyd.Env.{Env}
use as_proxyd.RequestHandler.{request_handler}
use as_proxyd.RequestHandler.Framing.{AllReadable, handle_request-IsDefined}
use as_proxyd.RequestHandler.Printable.{AllNamed}
use as_proxyd.Server.{handle_stop}
use as_proxyd.Server.Threads.{keys}
use as_proxyd.System.{
  System, Step, timer, accept_fails, accepts, stop, handles, elsewhere, Reach, here, next, started,
}
use as_proxyd.System.Placed.{Step-PlacedAfter, started-IsPlaced}
use as_proxyd.System.Invariant.{
  IsSafe, Undefined, SafeAfter, resumed-SafeAfter, accept_fails-IsSafe, accepts-IsSafe,
}

module _ (env : Env) (ids places : List ℕ) where
  Step-SafeAfter :
      AllReadable env
      → AllNamed env
      → {s : System env} {o : Option (System env)} (p : Step env ids s o) → IsSafe env ids places s
      → SafeAfter env ids places (Undefined env ids places p) o
  unfolding handle_stop
  Step-SafeAfter rd nm {s} (timer r p) v = record {
    placed = Step-PlacedAfter env ids places (timer r p) v.placed;
    sound =
        λ k u f. record { parsing = (v.sound k u f).parsing; refusing = (v.sound k u f).refusing };
  }
  Step-SafeAfter rd nm {s} (accept_fails r p) v =
      accept_fails-IsSafe env ids places s v
        (Step-PlacedAfter env ids places (accept_fails r p) v.placed)
  Step-SafeAfter rd nm {s} (accepts r p n q rep e) v =
      accepts-IsSafe env ids places s n q rep e v
        (Step-PlacedAfter env ids places (accepts r p n q rep e) v.placed)
  Step-SafeAfter rd nm {s} (stop r) v = record {
    placed = Step-PlacedAfter env ids places (stop r) v.placed;
    sound =
        λ k u f. record { parsing = (v.sound k u f).parsing; refusing = (v.sound k u f).refusing };
  }
  Step-SafeAfter rd nm {s} (handles r i self g n l e {o} p) v =
      resumed-SafeAfter env ids places s n l _ o v e
        (step-Outcome env.boost (request_handler env self)
          (λ q rep k w f. let (x, h) = handle_request-IsDefined env self rd nm q rep k w in cc) p
          (v.sound n l e))
        (Step-PlacedAfter env ids places (handles r i self g n l e p) v.placed)
  Step-SafeAfter rd nm {s} (elsewhere w) v = record {
    placed = Step-PlacedAfter env ids places (elsewhere w) v.placed;
    sound =
        λ k u f. record { parsing = (v.sound k u f).parsing; refusing = (v.sound k u f).refusing };
  }

  pub steps-IsSafe :
      AllReadable env
      → AllNamed env
      → {s t : System env} → IsSafe env ids places s
      → Reach env ids s t
      → IsSafe env ids places t
  steps-IsSafe rd nm v here = v
  steps-IsSafe rd nm v (next r p e) = rw e at (Step-SafeAfter rd nm p (steps-IsSafe rd nm v r))

pub started-IsSafe :
    (env : Env) (ids : List ℕ) (c : Control) (w : env.aerospike.Cluster)
    → IsSafe env ids (keys (started env ids c w).server.control.objects) (started env ids c w)
unfolding started lookup
started-IsSafe env ids c w = record { placed = started-IsPlaced env ids c w; sound = λ k u f. cc }

-- ===== src/System/Placed.antt =====
-- What holds in every state of the running program, whatever its handlers come to: its clients, the
-- pool, and the order of its connections.
use as_proxyd.Common.{
  ℕ, ◌<◌, Bool, true, false, List, Option, none, some, ◌≡◌, refl, ◌∙◌, sym, arith, if◌then◌else◌,
  ◌==◌,
}
use as_proxyd.Connection.Life.{Session}
use as_proxyd.Connection.World.{Kept, Step-Kept}
use as_proxyd.Control.{Control, lookup, assign, check_as_servers_status}
use as_proxyd.Control.Pool.{lookup-assign}
use as_proxyd.Env.{Env}
use as_proxyd.Reply.{Reply}
use as_proxyd.Request.{Request}
use as_proxyd.RequestHandler.{World, request_handler}
use as_proxyd.RequestHandler.Objects.{Covered, handle_request-Covered}
use as_proxyd.Server.{Server, start_accept, handle_accept, handle_stop, handle_timer}
use as_proxyd.Server.Lifetime
use as_proxyd.Server.Lifetime.{timer-IsSound, accept-IsSound, stop-IsSound, run-IsSound}
use as_proxyd.Server.Threads.{keys, keys-check_objects, get-Holds}
use as_proxyd.System.{
  Live, System, Step, timer, accept_fails, accepts, stop, handles, elsewhere, Reach, here, next,
  started, resumed, accepted_as,
}

pub assign-each :
    (P : ℕ → Live → Type 0) (n : ℕ) (l : Live) (m : List (ℕ × Live))
    → P n l
    → ((k : ℕ) (u : Live) → lookup k m ≡ some u → P k u)
    → (k : ℕ) (u : Live) → lookup k (assign n l m) ≡ some u
    → P k u
assign-each P n l m p f k u e = chosen (n == k) refl
  where
    chosen : (b : Bool) → (n == k) ≡ b → P k u
    chosen true q =
        let d : lookup k (assign n l m) ≡ some l = lookup-assign k n l m ∙ rw q refl in
        let h : n ≡ k = grind arith in let g : l ≡ u = cc in rw h at (rw g at p)
    chosen false q = f k u (sym (lookup-assign k n l m ∙ rw q refl) ∙ e)

module _ (env : Env) (ids places : List ℕ) where
  -- The server is sound, the map of the clients has the entries `places`, and the connections that run
  -- are older than the one that waits for a client.
  pub record IsPlaced (s : System env) : Type 0 where
    pub server : Lifetime.IsSound ids s.server
    pub places_kept : keys s.server.control.objects ≡ places
    pub older : (n : ℕ) (l : Live) → lookup n s.sessions ≡ some l → n < s.server.new_connection

  abbrev pub PlacedAfter : Option (System env) → Type 0
  PlacedAfter none = Unit
  PlacedAfter (some t) = IsPlaced t

  resumed-PlacedAfter :
      (s : System env) (n : ℕ) (l : Live) (o : Option (Session (World env)))
      → IsPlaced s
      → lookup n s.sessions ≡ some l
      → Kept (Covered env ids places) o
      → PlacedAfter (resumed env n s o)
  resumed-PlacedAfter s n l none v e q = tt
  resumed-PlacedAfter s n l (some t) v e q = record {
    server = record {
      stopped = v.server.stopped;
      waits = v.server.waits;
      fresh = v.server.fresh;
      before = v.server.before;
      covered = q.0;
    };
    places_kept = q.1;
    older = assign-each (λ k u. k < s.server.new_connection) n _ s.sessions (v.older n l e) v.older;
  }

  either {ℓ κ} :
      {T : Type ℓ} (P : T → Type κ) (c : Bool) (x y : T) → P x → P y → P (if c then x else y)
  either P true x y p q = p
  either P false x y p q = q

  -- What `handle_timer` leaves as it was.
  abbrev TimerKept : Server → Server × env.aerospike.Cluster → Type 0
  TimerKept s q =
      (keys q.0.control.objects ≡ keys s.control.objects) × (q.0.new_connection ≡ s.new_connection)

  handle_timer-TimerKept :
      (s : Server) (w : env.aerospike.Cluster) → TimerKept s (handle_timer env.aerospike s w)
  unfolding handle_timer check_as_servers_status
  handle_timer-TimerKept s w =
      either (TimerKept s) s.is_handle_stop _ _ (refl, refl)
        (keys-check_objects env.aerospike s.control.objects w, refl)

  accepts-IsPlaced :
      (s : System env) (n : ℕ) (r : Request) (rep : Reply)
      → IsPlaced s
      → IsPlaced (accepted_as env s n r rep)
  unfolding handle_accept start_accept
  accepts-IsPlaced s n r rep v = record {
    server = accept-IsSound ids s.server false v.server;
    places_kept = v.places_kept;
    older =
        assign-each (λ k u. k < s.server.created) s.server.new_connection _ s.sessions
          (let b = v.server.fresh in omega arith)
          (λ k u f. let a = v.older k u f in let b = v.server.fresh in omega arith);
  }

  pub Step-PlacedAfter :
      {s : System env} {o : Option (System env)} → Step env ids s o → IsPlaced s → PlacedAfter o
  unfolding handle_stop handle_accept start_accept
  Step-PlacedAfter {s} (timer r p) v =
      let (q, n) = handle_timer-TimerKept s.server s.cluster in
      record {
        server = timer-IsSound env.aerospike env.shuffle ids s.server s.cluster r v.server;
        places_kept = q ∙ v.places_kept;
        older = λ k u f. rw n (v.older k u f);
      }
  Step-PlacedAfter {s} (accept_fails r p) v = record {
    server = accept-IsSound ids s.server true v.server;
    places_kept = v.places_kept;
    older = λ k u f. let a = v.older k u f in let b = v.server.fresh in omega arith;
  }
  Step-PlacedAfter {s} (accepts r p n q rep e) v = accepts-IsPlaced s n q rep v
  Step-PlacedAfter {s} (stop r) v = record {
    server = stop-IsSound ids s.server v.server;
    places_kept = v.places_kept;
    older = v.older;
  }
  Step-PlacedAfter {s} (handles r i self g n l e {o} p) v = resumed-PlacedAfter s n l o v e (
      Step-Kept (Covered env ids places) env.boost (request_handler env self)
        (λ q rep k w c.
          handle_request-Covered env ids places self q rep k w
            (get-Holds ids w.control.objects i self c.0 g) c)
        p (v.server.covered, v.places_kept))
  Step-PlacedAfter {s} (elsewhere w) v = record {
    server = v.server;
    places_kept = v.places_kept;
    older = v.older;
  }

  steps-IsPlaced : {s t : System env} → IsPlaced s → Reach env ids s t → IsPlaced t
  steps-IsPlaced v here = v
  steps-IsPlaced v (next r p e) = rw e at (Step-PlacedAfter p (steps-IsPlaced v r))

pub started-IsPlaced :
    (env : Env) (ids : List ℕ) (c : Control) (w : env.aerospike.Cluster)
    → IsPlaced env ids (keys (started env ids c w).server.control.objects) (started env ids c w)
unfolding started lookup
started-IsPlaced env ids c w = record {
  server = run-IsSound env.aerospike env.shuffle ids c w;
  places_kept = refl;
  older = λ k u f. cc;
}

-- What the start made stays, in every run.
pub Reach-IsPlaced :
    (env : Env) (ids : List ℕ) (c : Control) (w : env.aerospike.Cluster) (s : System env)
    → Reach env ids (started env ids c w) s
    → IsPlaced env ids (keys (started env ids c w).server.control.objects) s
Reach-IsPlaced env ids c w s r = steps-IsPlaced env ids _ (started-IsPlaced env ids c w) r

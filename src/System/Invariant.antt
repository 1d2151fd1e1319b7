-- ===== src/System/Invariant.antt =====
-- What holds in every state of the running program, and that the single handlers keep it.
use as_proxyd.Common.{ℕ, true, List, [], Option, none, some, ◌≡◌}
use as_proxyd.Connection.Life.{Session, opened, opened-IsSound, Outcome, step-Outcome}
use as_proxyd.Connection.Life
use as_proxyd.Control.{lookup}
use as_proxyd.Env.{Env}
use as_proxyd.Reply.{Reply}
use as_proxyd.Request.{Request}
use as_proxyd.RequestHandler.{World, request_handler}
use as_proxyd.Server.{handle_accept}
use as_proxyd.System.Placed.{IsPlaced, PlacedAfter, assign-each}
use as_proxyd.System.{
  Live, System, Step, handles, world_of, session_at, resumed_with, resumed, accepted_as,
}

module _ (env : Env) (ids places : List ℕ) where
  -- Each connection is sound, beside what holds of the server.
  pub record IsSafe (s : System env) : Type 0 where
    pub placed : IsPlaced env ids places s
    pub sound :
        (n : ℕ) (l : Live) → lookup n s.sessions ≡ some l → Life.IsSound (session_at env l s)

  -- A step of a connection is undefined where `Life` says so, and no other step is.
  abbrev pub Undefined : {s : System env} {o : Option (System env)} → Step env ids s o → Type 0
  Undefined (handles r i self g n l e p) = Life.Undefined env.boost (request_handler env self) p
  Undefined _ = ⊥

  -- What a step comes to, with what makes it undefined as a parameter.
  abbrev pub SafeAfter : Type 0 → Option (System env) → Type 0
  SafeAfter U none = U
  SafeAfter U (some t) = IsSafe t

  -- A session's soundness is not about the world.
  elsewhere-IsSound :
      (l : Live) (s t : System env)
      → Life.IsSound (session_at env l s)
      → Life.IsSound (session_at env l t)
  elsewhere-IsSound l s t v = record { parsing = v.parsing; refusing = v.refusing }

  pub resumed-SafeAfter :
      (s : System env) (n : ℕ) (l : Live) (U : Type 0) (o : Option (Session (World env)))
      → IsSafe s
      → lookup n s.sessions ≡ some l
      → Outcome U o
      → PlacedAfter env ids places (resumed env n s o)
      → SafeAfter U (resumed env n s o)
  resumed-SafeAfter s n l U none v e p q = p
  resumed-SafeAfter s n l U (some t) v e p q = record {
    placed = q;
    sound =
        assign-each (λ k u. Life.IsSound (session_at env u (resumed_with env n s t))) n _ s.sessions
          (record { parsing = p.parsing; refusing = p.refusing })
          (λ k u f. elsewhere-IsSound u s (resumed_with env n s t) (v.sound k u f));
  }

  pub accept_fails-IsSafe :
      (s : System env)
      → IsSafe s
      → IsPlaced env ids places (record s { server = handle_accept true s.server })
      → IsSafe (record s { server = handle_accept true s.server })
  accept_fails-IsSafe s v p = record {
    placed = p;
    sound = λ k u f.
        elsewhere-IsSound u s (record s { server = handle_accept true s.server }) (v.sound k u f);
  }

  pub accepts-IsSafe :
      (s : System env) (n : ℕ) (r : Request) (rep : Reply)
      → r.content ≡ []
      → IsSafe s
      → IsPlaced env ids places (accepted_as env s n r rep)
      → IsSafe (accepted_as env s n r rep)
  accepts-IsSafe s n r rep e v p = record {
    placed = p;
    sound =
        assign-each (λ k u. Life.IsSound (session_at env u (accepted_as env s n r rep)))
          s.server.new_connection _ s.sessions
          (let i = opened-IsSound n r rep (world_of env s) e in
            record { parsing = i.parsing; refusing = i.refusing })
          (λ k u f. elsewhere-IsSound u s (accepted_as env s n r rep) (v.sound k u f));
  }

-- ===== src/System/Sessions.antt =====
-- A connection of the running program follows the life of a connection alone (src/connection.cpp).
use as_proxyd.Common.{
  ℕ, Bool, true, false, List, Option, none, some, ◌≡◌, ◌⊎◌, inl, inr, refl, ◌∙◌, arith, ◌==◌,
  get_elem?,
}
use as_proxyd.Connection.Life.{Session}
use as_proxyd.Connection.Life
use as_proxyd.Control.{Control, lookup}
use as_proxyd.Control.Pool.{lookup-assign}
use as_proxyd.Env.{Env}
use as_proxyd.RequestHandler.{World, request_handler}
use as_proxyd.Server.Threads.{keys}
use as_proxyd.System.{
  Live, System, session_at, resumed, Step, timer, accept_fails, accepts, stop, handles, elsewhere,
  Reach, started,
}
use as_proxyd.System.Placed.{IsPlaced, Reach-IsPlaced}

module _ (env : Env) (ids : List ℕ) where
  -- A connection that was `l` has been left alone, or a thread of the pool has run one of its handlers.
  abbrev pub Follows : System env → ℕ → Live → Option (System env) → Type 0
  Follows s k l none = Unit
  Follows s k l (some t) =
      (lookup k t.sessions ≡ some l)
      ⊎ ((i : ℕ) × (self : ℕ) × (get_elem? ids i ≡ some self)
          × (u : Live) × (lookup k t.sessions ≡ some u)
          × Life.Step env.boost (request_handler env self) (session_at env l s)
              (some (session_at env u t)))

  resumed-Follows :
      (s : System env) (k : ℕ) (l : Live) (n : ℕ) (v : Live) (i self : ℕ)
      (o : Option (Session (World env))) (b : Bool)
      → (n == k) ≡ b
      → get_elem? ids i ≡ some self
      → lookup k s.sessions ≡ some l
      → lookup n s.sessions ≡ some v
      → Life.Step env.boost (request_handler env self) (session_at env v s) o
      → Follows s k l (resumed env n s o)
  resumed-Follows s k l n v i self none b q g e f p = tt
  resumed-Follows s k l n v i self (some t) true q g e f p =
      let same : n ≡ k = ground (arith, q) in
      let alike : v ≡ l = cc in
      inr (i, self, g, _, lookup-assign k n _ s.sessions ∙ rw q refl, rw alike at p)
  resumed-Follows s k l n v i self (some t) false q g e f p =
      inl (lookup-assign k n _ s.sessions ∙ rw q e)

  Step-Follows :
      (places : List ℕ) {s : System env} {o : Option (System env)}
      → Step env ids s o
      → IsPlaced env ids places s
      → (k : ℕ) (l : Live) → lookup k s.sessions ≡ some l
      → Follows s k l o
  Step-Follows places (timer r p) v k l e = inl e
  Step-Follows places (accept_fails r p) v k l e = inl e
  Step-Follows places {s} (accepts r p n q rep c) v k l e =
      let h = v.older k l e in
      let d : (s.server.new_connection == k) ≡ false = ground (arith, h) in
      inl (lookup-assign k s.server.new_connection _ s.sessions ∙ rw d e)
  Step-Follows places (stop r) v k l e = inl e
  Step-Follows places {s} (handles r i self g n u f {o} p) v k l e =
      resumed-Follows s k l n u i self o (n == k) refl g e f p
  Step-Follows places (elsewhere w) v k l e = inl e

-- In every run of the program each step leaves a given connection alone, or is one of the steps that a
-- connection alone can take over the clients and the cluster as they are then, in a thread of the pool:
-- connections do not disturb each other, but for what they do to the world that the handlers see.
pub Reach-Follows :
    (env : Env) (ids : List ℕ) (c : Control) (w : env.aerospike.Cluster)
    → (s t : System env) → Reach env ids (started env ids c w) s
    → Step env ids s (some t)
    → (k : ℕ) (l : Live) → lookup k s.sessions ≡ some l
    → Follows env ids s k l (some t)
Reach-Follows env ids c w s t r p k l e =
    Step-Follows env ids (keys (started env ids c w).server.control.objects) p
      (Reach-IsPlaced env ids c w s r) k l e

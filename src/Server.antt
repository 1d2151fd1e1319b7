-- ===== src/Server.antt =====
-- src/server.cpp and include/server.hpp: the handlers that the `io_service` runs, from the start of
-- the server to its stop. Sockets, signals and the calls that set them up are not modelled: a
-- connection is its number in the order of `new connection`.
pub mod Threads
pub mod Lifetime
use as_proxyd.Aerospike.{Aerospike}
use as_proxyd.Common.{ℕ, zero, suc, ◌+◌, Bool, true, false, List, [], ◌∷◌, if◌then◌else◌, Bytes}
use as_proxyd.Control.{Control, assign, initialize, check_as_servers_status}

-- `timer` and `accepting` say what the `io_service` waits for, `running` whether it has been
-- stopped. `created` connections have been made, the last one is `new_connection_`, and those in
-- `started` have been started.
pub record Server : Type 0 where
  pub control : Control
  pub is_handle_stop : Bool
  pub running : Bool
  pub timer : Bool
  pub accepting : Bool
  pub created : ℕ
  pub new_connection : ℕ
  pub started : List ℕ

-- `start_accept`.
unfoldable pub start_accept : Server → Server
start_accept s = record s { accepting = true; created = suc s.created; new_connection = s.created }

-- The constructor.
unfoldable pub new_server : Control → Server
unfolding start_accept
new_server c =
    record (start_accept (record {
      control = c;
      is_handle_stop = false;
      running = true;
      timer = true;
      accepting = false;
      created = 0;
      new_connection = 0;
      started = [];
    })) { is_handle_stop = false }

-- `handle_accept`, with the flag for an error. The wait that it ends is over.
unfoldable pub handle_accept : Bool → Server → Server
unfolding start_accept
handle_accept failed s =
    let s' = if failed then s else record s { started = s.new_connection ∷ s.started } in
    start_accept (record s' { accepting = false })

-- `handle_stop`.
unfoldable pub handle_stop : Server → Server
handle_stop s = record s { is_handle_stop = true; running = false }

-- The loop of `run`: the threads of the pool, by the ids that they get.
unfoldable pub register : ℕ → List ℕ → List (ℕ × ℕ) → List (ℕ × ℕ)
register i [] m = m
register i (id ∷ ids) m = register (i + 1) ids (assign id i m)

module _ (A : Aerospike) where
  -- `handle_timer`. The wait that it ends is over.
  unfoldable pub handle_timer : Server → A.Cluster → Server × A.Cluster
  handle_timer s w =
      if s.is_handle_stop
      then (record s { timer = false }, w)
      else (let (c, w') = check_as_servers_status A s.control w in
          (record s { control = c; timer = true }, w'))

  module _ (shuffle : A.Cluster → List Bytes → List Bytes) where
    -- `run`, before it waits for the threads, which the handlers run in.
    unfoldable pub run : List ℕ → Server → A.Cluster → Server × A.Cluster
    unfolding register
    run ids s w =
        let c = record s.control { threads = register 0 ids s.control.threads } in
        let (c', w') = initialize A shuffle c w in (record s { control = c' }, w')

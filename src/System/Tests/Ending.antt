-- ===== src/System/Tests/Ending.antt =====
-- The end of a concrete run: two threads, and a client that has connected.
use as_proxyd.Boost.Model.{boost}
use as_proxyd.Common.{[], some, ◌≡◌, refl, codes, pos}
use as_proxyd.Aerospike.Model.{fixed}
use as_proxyd.Control.{Control, new_control}
use as_proxyd.Control.Delete.{close_all}
use as_proxyd.Reply.{ok, stock_reply}
use as_proxyd.Server.{new_server, run}
use as_proxyd.Server.Threads.{keys}
use as_proxyd.System.{System, accepts, accepted_as, Reach, here, next, started, shut_down}
use as_proxyd.System.Shutdown.{Reach-shut_down}
use as_proxyd.System.Tests.{the_env, ids, blank}

abbrev new_one : Control
new_one = new_control boost (codes "10.0.0.1,10.0.0.2") (pos 3000) (pos 1000) (pos 2) []

abbrev with_client : System the_env
with_client = accepted_as the_env (started the_env ids new_one 5) 3 blank (stock_reply ok)

with_client_reached : Reach the_env ids (started the_env ids new_one 5) with_client
unfolding started new_server run
with_client_reached = next here (accepts refl refl 3 blank (stock_reply ok) refl) refl

Reach-shut_down_example :
    (keys with_client.server.control.objects ≡ ids)
    × (shut_down the_env with_client
        ≡ some (close_all fixed with_client.server.control.objects with_client.cluster))
Reach-shut_down_example =
    Reach-shut_down the_env ids boost (codes "10.0.0.1,10.0.0.2") (pos 3000) (pos 1000) (pos 2) [] 5
      ((refl, tt), (tt, tt)) with_client with_client_reached

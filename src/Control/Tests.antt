-- ===== src/Control/Tests.antt =====
-- The theorems on the clients of the threads (include/as_control.hpp) at concrete inputs.
use as_proxyd.Aerospike.Model.{fixed, down}
use as_proxyd.AsObject.{AsObject}
use as_proxyd.Common.{
  ℕ, some, true, false, List, [], ◌∷◌, map, ◌≡◌, refl, Bytes, codes, pos, negsuc, All, eq_ℤ,
}
use as_proxyd.Control.{
  Control, lookup, get_as_object, initialize, check_as_servers_status, get_as_health_status,
}
use as_proxyd.Control.Pool.{Has, Extends, get_as_object-initialize}
use as_proxyd.Control.Uses.{records, check_uses, check_uses-records}
use as_proxyd.Ownership.{run_uses, rec}
use as_proxyd.Control.Recovery.{
  IsAlive, IsDead, thread_of, check_as_servers_status-IsAlive, get_as_health_status-down,
}

abbrev shuffle : ℕ → List Bytes → List Bytes
shuffle w s = s

-- One client, that has lost the cluster, and two threads.
abbrev pub lost : AsObject
lost = record {
  config = record { hosts = []; timeouts = record { read = 9; apply = 9 } };
  err_code = negsuc 0;
  isalive = false;
}

abbrev pub two_threads : Control
two_threads = record {
  port = pos 3000;
  timeout = pos 1000;
  thread_count = pos 2;
  server_list = codes "10.0.0.1" ∷ [];
  health_file = codes "/health";
  threads = (11, 0) ∷ (12, 1) ∷ [];
  objects = (11, lost) ∷ [];
}

get_as_object-initialize_example :
    Has 12 (initialize fixed shuffle two_threads 5).0.objects
    × Extends fixed shuffle two_threads (initialize fixed shuffle two_threads 5).0
    × (get_as_object fixed shuffle 12 (initialize fixed shuffle two_threads 5).0 6
        ≡ ((initialize fixed shuffle two_threads 5).0, 6))
unfolding lookup
get_as_object-initialize_example = get_as_object-initialize fixed shuffle 12 1 two_threads 5 6 refl

check_as_servers_status-IsAlive_example :
    All (IsAlive fixed) (check_as_servers_status fixed two_threads 5).0.objects
    × (map (thread_of fixed) (check_as_servers_status fixed two_threads 5).0.objects ≡ 11 ∷ [])
unfolding eq_ℤ
check_as_servers_status-IsAlive_example =
    check_as_servers_status-IsAlive fixed (λ w. Unit) (λ c w u. (refl, tt)) (λ c k w u. tt)
      two_threads 5 tt

get_as_health_status-down_example :
    ((get_as_health_status down (λ path. true) two_threads 5).0 ≡ false)
    × All (IsDead down) (check_as_servers_status down two_threads 5).0.objects
unfolding eq_ℤ
get_as_health_status-down_example =
    get_as_health_status-down down (λ c w. refl) (λ c k w. refl) (λ path. true) two_threads 5

-- Two clients that can read the record, and one that is not alive.
abbrev three : List (ℕ × AsObject)
three =
    (11, record lost { isalive = true })
    ∷ (12, lost)
    ∷ (13, record lost { isalive = true; err_code = pos 0 })
    ∷ []

check_uses-records_example : run_uses (check_uses fixed three 5) [] ≡ some (rec ∷ rec ∷ [])
unfolding records eq_ℤ
check_uses-records_example = check_uses-records fixed three 5 []

-- ===== src/Control.antt =====
-- `AS_CONTROL` (include/as_control.hpp): the clients of the cluster, one for each thread of the pool.
pub mod Pool
pub mod Recovery
pub mod Config
pub mod Delete
pub mod Uses
mod Tests
use as_proxyd.Aerospike.{Aerospike}
use as_proxyd.AsObject.{
  AsObject, delete_object, new_as_object, status_of, reconnect, is_alive_as_server,
}
use as_proxyd.Boost.{Boost}
use as_proxyd.Common.{
  ℕ, Bool, true, false, not, List, [], ◌∷◌, Option, none, some, if◌then◌else◌, ◌==◌, Bytes, ℤ,
  until_nul,
}
use as_proxyd.Parser.{is_empty}

-- A `boost::unordered_map` by thread ids, with one entry for each: what it holds for one,
unfoldable pub lookup {ℓ} : {V : Type ℓ} → ℕ → List (ℕ × V) → Option V
lookup k [] = none
lookup k ((j, v) ∷ m) = if j == k then some v else lookup k m

-- and `map[key] = value`.
unfoldable pub assign {ℓ} : {V : Type ℓ} → ℕ → V → List (ℕ × V) → List (ℕ × V)
assign k v [] = (k, v) ∷ []
assign k v ((j, u) ∷ m) = if j == k then (k, v) ∷ m else (j, u) ∷ assign k v m

-- `mthreadList` and `rAsList` are `threads` and `objects`. `as_health_`, which nothing reads, and the
-- reader of the configuration are left out.
pub record Control : Type 0 where
  pub port : ℤ
  pub timeout : ℤ
  pub thread_count : ℤ
  pub server_list : List Bytes
  pub health_file : Bytes
  pub threads : List (ℕ × ℕ)
  pub objects : List (ℕ × AsObject)

-- The constructor.
unfoldable pub new_control : Boost → Bytes → ℤ → ℤ → ℤ → Bytes → Control
new_control b servers port timeout n health_file = record {
  port = port;
  timeout = timeout;
  thread_count = n;
  server_list = b.split b',' servers;
  health_file = health_file;
  threads = [];
  objects = [];
}

-- `healthFileExist`, by what the file system says of a path.
abbrev pub health_file_exist : (Bytes → Bool) → Control → Bool
health_file_exist exists c = exists (until_nul c.health_file)

-- `shuffle` is `std::random_shuffle` after `srand(time(NULL))`; the clock belongs to the world that
-- the cluster is.
module _ (A : Aerospike) (shuffle : A.Cluster → List Bytes → List Bytes) where
  -- `rAsList[id] = new AS_OBJECT(as_server_list_, port_, timeout_)`, which shuffles the list in
  -- place.
  unfoldable pub add_object : ℕ → Control → A.Cluster → Control × A.Cluster
  add_object id c w =
      let servers = shuffle w c.server_list in
      let (o, w') = new_as_object A servers c.port c.timeout w in
      (record c { server_list = servers; objects = assign id o c.objects }, w')

  -- `if ( rAsList.count(id) <= 0 )`, in `GetAsObject` and in `Initialize`. `GetAsObject` returns the
  -- pointer that `rAsList` then holds for the thread.
  unfoldable pub get_as_object : ℕ → Control → A.Cluster → Control × A.Cluster
  unfolding add_object
  get_as_object id c w = elim (lookup id c.objects) [ none ↦ add_object id c w | some o ↦ (c, w) ]

  -- The loop of `Initialize`.
  unfoldable pub initialize_from : List (ℕ × ℕ) → Control → A.Cluster → Control × A.Cluster
  unfolding get_as_object
  initialize_from [] c w = (c, w)
  initialize_from ((id, i) ∷ ts) c w =
      let (c', w') = get_as_object id c w in initialize_from ts c' w'

  unfoldable pub initialize : Control → A.Cluster → Control × A.Cluster
  unfolding initialize_from
  initialize c w = initialize_from c.threads c w

module _ (A : Aerospike) where
  -- One round of `CheckAsServersStatus`. No pointer in the map is NULL.
  unfoldable pub check_object : AsObject → A.Cluster → AsObject × A.Cluster
  check_object o w =
      let (answers, o', w') = status_of A o w in if answers then (o', w') else reconnect A o' w'

  unfoldable pub check_objects : List (ℕ × AsObject) → A.Cluster → List (ℕ × AsObject) × A.Cluster
  unfolding check_object
  check_objects [] w = ([], w)
  check_objects ((id, o) ∷ m) w =
      let (o', w') = check_object o w in let (m', w'') = check_objects m w' in ((id, o') ∷ m', w'')

  unfoldable pub check_as_servers_status : Control → A.Cluster → Control × A.Cluster
  unfolding check_objects
  check_as_servers_status c w =
      let (m, w') = check_objects c.objects w in (record c { objects = m }, w')

  -- The loop of `GetAsHealthStatus`, which stops at the first object that is not alive.
  unfoldable pub all_alive : List (ℕ × AsObject) → Bool × List (ℕ × AsObject)
  all_alive [] = (true, [])
  all_alive ((id, o) ∷ m) =
      let (alive, o') = is_alive_as_server A o in
      let (rest, m') = all_alive m in if alive then (rest, (id, o') ∷ m') else (false, (id, o') ∷ m)

  -- `GetAsHealthStatus`; the first argument is the file system.
  unfoldable pub get_as_health_status :
      (Bytes → Bool) → Control → A.Cluster → Bool × Control × A.Cluster
  unfolding check_as_servers_status all_alive
  get_as_health_status exists c w =
      if is_empty c.objects
      then (false, c, w)
      else if not (health_file_exist exists c)
      then (false, c, w)
      else (let (c', w') = check_as_servers_status c w in
          let (alive, m) = all_alive c'.objects in (alive, record c' { objects = m }, w'))

  -- `rAsList` while the destructor runs: an object that has been deleted is `none`.
  abbrev pub all_live : List (ℕ × AsObject) → List (ℕ × Option AsObject)
  all_live [] = []
  all_live ((id, o) ∷ m) = (id, some o) ∷ all_live m

  -- The loop of the destructor over the entries: `delete rAsList[key]`. A null pointer may be deleted; to
  -- delete an object for the second time is undefined, `none`.
  unfoldable pub delete_objects :
      List (ℕ × AsObject) → List (ℕ × Option AsObject) → A.Cluster → Option A.Cluster
  delete_objects [] m w = some w
  delete_objects ((id, o) ∷ l) m w = elim (lookup id m) [
    | none ↦ delete_objects l m w
    | some none ↦ none
    | some (some u) ↦ delete_objects l (assign id none m) (delete_object A u w)
  ]

  -- The destructor.
  unfoldable pub delete_control : Control → A.Cluster → Option A.Cluster
  unfolding delete_objects
  delete_control c w = delete_objects c.objects (all_live c.objects) w

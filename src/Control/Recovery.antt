-- ===== src/Control/Recovery.antt =====
-- The check of the servers (include/as_control.hpp): clients that lost the cluster find it again, and
-- the health status reports a cluster that is down.
use as_proxyd.Aerospike.{Config, Key, Aerospike}
use as_proxyd.AsObject.{AsObject, noted, reconnect, status_of, is_alive_as_server}
use as_proxyd.Common.{
  ℕ, Bool, true, false, ◌||◌, List, [], ◌∷◌, map, ◌≡◌, refl, ◌∙◌, ap, if◌then◌else◌, ℤ, eq_ℤ, All,
  Bytes,
}
use as_proxyd.Control.{
  Control, check_object, check_objects, check_as_servers_status, all_alive, health_file_exist,
  get_as_health_status,
}
use as_proxyd.Parser.{is_empty}

module _ (A : Aerospike) where
  noted-isalive :
      (b : Bool) (o : AsObject) (st : ℤ)
      → (if b then o else record o { err_code = st }).isalive ≡ o.isalive
  noted-isalive true o st = refl
  noted-isalive false o st = refl

  abbrev pub thread_of : ℕ × AsObject → ℕ
  thread_of (id, o) = id

  abbrev pub IsAlive : ℕ × AsObject → Type 0
  IsAlive (id, o) = o.isalive ≡ true

  abbrev pub IsDead : ℕ × AsObject → Type 0
  IsDead (id, o) = o.isalive ≡ false

  -- The threads of the pool keep their objects.
  pub check_objects-threads :
      (m : List (ℕ × AsObject)) (w : A.Cluster)
      → map thread_of (check_objects A m w).0 ≡ map thread_of m
  unfolding check_objects
  check_objects-threads [] w = refl
  check_objects-threads ((id, o) ∷ m) w = ap (◌∷◌ id) (check_objects-threads m _)

  never : (timeout lost : Bool) → (if timeout then false else if lost then false else false) ≡ false
  never true lost = refl
  never false true = refl
  never false false = refl

  is_alive-dead : (o : AsObject) → o.isalive ≡ false → (is_alive_as_server A o).0 ≡ false
  unfolding is_alive_as_server
  is_alive-dead o e = rw e (never _ _)

  all_alive-dead :
      (m : List (ℕ × AsObject)) → is_empty m ≡ false → All IsDead m → (all_alive A m).0 ≡ false
  unfolding all_alive
  all_alive-dead [] n d = cc
  all_alive-dead ((id, o) ∷ m) n (e, d) = rw (is_alive-dead o e) refl

  is_empty-check_objects :
      (m : List (ℕ × AsObject)) (w : A.Cluster) → is_empty (check_objects A m w).0 ≡ is_empty m
  unfolding check_objects
  is_empty-check_objects [] w = refl
  is_empty-check_objects ((id, o) ∷ m) w = refl

  -- A cluster that can be reached as long as `Up` holds of it.
  module _ (Up : A.Cluster → Type 0)
      (connects : (c : Config) (w : A.Cluster)
        → Up w
        → (eq_ℤ (A.aerospike_connect c w).0 A.aerospike_ok ≡ true) × Up (A.aerospike_connect c w).1)
      (stays : (c : Config) (k : Key) (w : A.Cluster)
        → Up w
        → Up (A.aerospike_key_get c k w).2) where
    reconnect-alive :
        (o : AsObject) (w : A.Cluster)
        → Up w
        → ((reconnect A o w).0.isalive ≡ true) × Up (reconnect A o w).1
    unfolding reconnect
    reconnect-alive o w u = connects o.config w u

    settled-alive :
        (answers : Bool) (o : AsObject) (w : A.Cluster)
        → o.isalive ≡ true
        → Up w
        → ((if answers then (o, w) else reconnect A o w).0.isalive ≡ true)
          × Up (if answers then (o, w) else reconnect A o w).1
    settled-alive true o w e u = (e, u)
    settled-alive false o w e u = reconnect-alive o w u

    check_object-alive :
        (c : Config) (e : ℤ) (b : Bool) (w : A.Cluster)
        → Up w
        → (let r = check_object A (record { config = c; err_code = e; isalive = b }) w in
            (r.0.isalive ≡ true) × Up r.1)
    unfolding check_object status_of
    check_object-alive c e false w u =
        reconnect-alive (record { config = c; err_code = e; isalive = false }) w u
    check_object-alive c e true w u =
        let o : AsObject = record { config = c; err_code = e; isalive = true } in
        settled-alive _ (noted A _ o) _ (noted-isalive (eq_ℤ _ A.aerospike_ok) o _) (stays c _ w u)

    check_objects-IsAlive :
        (m : List (ℕ × AsObject)) (w : A.Cluster)
        → Up w
        → All IsAlive (check_objects A m w).0 × Up (check_objects A m w).1
    unfolding check_objects
    check_objects-IsAlive [] w u = (tt, u)
    check_objects-IsAlive ((id, o) ∷ m) w u =
        let (a, u') = check_object-alive o.config o.err_code o.isalive w u in
        let (rest, u'') = check_objects-IsAlive m _ u' in ((a, rest), u'')

    -- A cluster that can be reached, and can be reached still after calls on it: after one check every
    -- client is alive, those that had lost it too, each still that of its thread.
    pub check_as_servers_status-IsAlive :
        (c : Control) (w : A.Cluster)
        → Up w
        → All IsAlive (check_as_servers_status A c w).0.objects
          × (map thread_of (check_as_servers_status A c w).0.objects ≡ map thread_of c.objects)
    unfolding check_as_servers_status
    check_as_servers_status-IsAlive c w u =
        ((check_objects-IsAlive c.objects w u).0, check_objects-threads c.objects w)

  -- A cluster that cannot be reached.
  module _
      (fails : (c : Config) (w : A.Cluster)
        → eq_ℤ (A.aerospike_connect c w).0 A.aerospike_ok ≡ false)
      (lost : (c : Config) (k : Key) (w : A.Cluster)
        → (let st = (A.aerospike_key_get c k w).0 in
            eq_ℤ st A.err_param || eq_ℤ st A.err_client || eq_ℤ st A.aerospike_err)
          ≡ true) where
    check_object-dead :
        (c : Config) (e : ℤ) (b : Bool) (w : A.Cluster)
        → (check_object A (record { config = c; err_code = e; isalive = b }) w).0.isalive ≡ false
    unfolding check_object status_of reconnect
    check_object-dead c e false w = fails c w
    check_object-dead c e true w = rw (lost c _ w) (fails _ _)

    check_objects-IsDead :
        (m : List (ℕ × AsObject)) (w : A.Cluster) → All IsDead (check_objects A m w).0
    unfolding check_objects
    check_objects-IsDead [] w = tt
    check_objects-IsDead ((id, o) ∷ m) w =
        (check_object-dead o.config o.err_code o.isalive w, check_objects-IsDead m _)

    health_down :
        (exists : Bytes → Bool) (found empty : Bool) (c : Control) (w : A.Cluster)
        → health_file_exist exists c ≡ found
        → is_empty c.objects ≡ empty
        → (get_as_health_status A exists c w).0 ≡ false
    unfolding get_as_health_status check_as_servers_status
    health_down exists found true c w f e = rw (e, get_as_health_status) refl
    health_down exists false false c w f e = rw (e, get_as_health_status) (rw f refl)
    health_down exists true false c w f e =
        rw (e, get_as_health_status)
          (rw f (
            all_alive-dead _ (is_empty-check_objects c.objects w ∙ e)
              (check_objects-IsDead c.objects w)))

    -- A cluster that refuses connections and answers every read with one of the three statuses of a
    -- lost client: the health status is bad, with the health file or without, whatever the clients were
    -- before, and no client counts as alive after the check.
    pub get_as_health_status-down :
        (exists : Bytes → Bool) (c : Control) (w : A.Cluster)
        → ((get_as_health_status A exists c w).0 ≡ false)
          × All IsDead (check_as_servers_status A c w).0.objects
    unfolding check_as_servers_status
    get_as_health_status-down exists c w = (
      health_down exists (health_file_exist exists c) (is_empty c.objects) c w refl refl,
      check_objects-IsDead c.objects w,
    )

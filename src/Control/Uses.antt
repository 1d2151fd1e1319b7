-- ===== src/Control/Uses.antt =====
-- What `CheckAsServersStatus` (include/as_control.hpp) acquires and does not give back.
use as_proxyd.Aerospike.{Aerospike}
use as_proxyd.AsObject.{AsObject}
use as_proxyd.AsObject.Uses.Status.{status_uses, reads_record, status_uses_lem}
use as_proxyd.Common.{
  ℕ, zero, suc, ◌+◌, Bool, true, false, ◌&&◌, List, [], ◌∷◌, ◌++◌, some, ◌≡◌, refl, ◌∙◌, ap, arith,
  if◌then◌else◌,
}
use as_proxyd.Control.{check_object}
use as_proxyd.Ownership.{Name, rec, Use, run_uses, run_uses-append}

-- So many records, before what else is owned.
unfoldable pub records : ℕ → List Name → List Name
records zero o = o
records (suc n) o = rec ∷ records n o

module _ (A : Aerospike) where
  -- The loop. `AS_OBJECT_RECONNECT` acquires nothing that is the caller's.
  unfoldable pub check_uses : List (ℕ × AsObject) → A.Cluster → List Use
  check_uses [] w = []
  check_uses ((id, o) ∷ m) w = status_uses A o w ++ check_uses m (check_object A o w).1

  -- How many clients are alive and read a record.
  abbrev pub found : List (ℕ × AsObject) → A.Cluster → ℕ
  found [] w = 0
  found ((id, o) ∷ m) w =
      (if o.isalive && reads_record A o w then 1 else 0) + found m (check_object A o w).1

  records-cons : (n : ℕ) (o : List Name) → records n (rec ∷ o) ≡ rec ∷ records n o
  unfolding records
  records-cons zero o = refl
  records-cons (suc n) o = ap (◌∷◌ rec) (records-cons n o)

  records-object :
      (b : Bool) (n : ℕ) (o : List Name)
      → records n (if b then rec ∷ o else o) ≡ records ((if b then 1 else 0) + n) o
  unfolding records
  records-object true n o = let e : 1 + n ≡ suc n = omega arith in rw e (records-cons n o)
  records-object false n o = ground arith

  -- `CheckAsServersStatus` uses and gives back nothing that is not owned. It loses a record for each client
  -- that is alive and can read the record that the check asks for.
  pub check_uses-records :
      (m : List (ℕ × AsObject)) (w : A.Cluster) (o : List Name)
      → run_uses (check_uses m w) o ≡ some (records (found m w) o)
  unfolding check_uses
  check_uses-records [] w o = unfold run_uses records in refl
  check_uses-records ((id, a) ∷ m) w o =
      let w' = (check_object A a w).1 in
      let p : List Name = if a.isalive && reads_record A a w then rec ∷ o else o in
      run_uses-append (status_uses A a w) (check_uses m w') o p (status_uses_lem A a w o)
      ∙ check_uses-records m w' p
      ∙ ap some (records-object (a.isalive && reads_record A a w) (found m w') o)

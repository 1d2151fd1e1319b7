-- ===== src/Ownership.antt =====
-- Who has to give back what the C libraries hand out: json_t values of Jansson, keys, records and values of
-- the Aerospike client, and memory from `new[]` and `malloc` (src/request_handler.cpp,
-- include/as_object.hpp, src/as_gzip.cpp). What a variable holds goes by the variable's name.
use as_proxyd.Common.{
  ℕ, Bool, true, false, List, [], ◌∷◌, ◌++◌, Option, none, some, ◌≡◌, ◌∙◌, ◌==◌, ◌&&◌,
  if◌then◌else◌, arith,
}

-- `value` is a value that is made in the argument of a call.
pub data Name : Type 0 where
  root bins value key rec src_value gzencode buffer cs result s2 stream : Name

pub data Use : Type 0 where
  -- The variable gets something that must be given back.
  acquires : Name → Use
  -- What it holds is read or changed.
  reads : Name → Use
  -- What the second holds goes to the first, which gives it back with itself.
  gives : Name → Name → Use
  -- It is given back: `json_decref`, `free`, `delete[]`, `as_key_destroy`, `as_record_destroy`.
  releases : Name → Use

abbrev pub number : Name → ℕ
number root = 0
number bins = 1
number value = 2
number key = 3
number rec = 4
number src_value = 5
number gzencode = 6
number buffer = 7
number cs = 8
number result = 9
number s2 = 10
number stream = 11

-- What has been acquired and not been given away, the latest first.
unfoldable pub owns : Name → List Name → Bool
owns x [] = false
owns x (y ∷ ys) = if number y == number x then true else owns x ys

unfoldable pub without : Name → List Name → List Name
without x [] = []
without x (y ∷ ys) = if number y == number x then ys else y ∷ without x ys

-- A use of what is not owned, or not any more, is undefined.
unfoldable pub run_use : Use → List Name → Option (List Name)
unfolding owns without
run_use (acquires x) o = some (x ∷ o)
run_use (reads x) o = if owns x o then some o else none
run_use (gives x y) o = if owns y o && owns x (without y o) then some (without y o) else none
run_use (releases x) o = if owns x o then some (without x o) else none

unfoldable pub run_uses : List Use → List Name → Option (List Name)
unfolding run_use
run_uses [] o = some o
run_uses (u ∷ us) o = elim (run_use u o) [ none ↦ none | some p ↦ run_uses us p ]

pub run_uses-append :
    (us vs : List Use) (o p : List Name)
    → run_uses us o ≡ some p
    → run_uses (us ++ vs) o ≡ run_uses vs p
unfolding run_uses
run_uses-append [] vs o p e = ground arith
run_uses-append (u ∷ us) vs o p e =
    elim (run_use u o)
        as (λ q.
          (elim q [ none ↦ none | some r ↦ run_uses us r ]) ≡ some p
          → (elim q [ none ↦ none | some r ↦ run_uses (us ++ vs) r ]) ≡ run_uses vs p) [
            | none ↦ λ h. cc
            | some r ↦ λ h. run_uses-append us vs r p h
          ]
      e

-- What is left as it was.
abbrev pub Keeps : List Use → List Name → Type 0
Keeps us o = run_uses us o ≡ some o

pub Keeps-append : (us vs : List Use) (o : List Name) → Keeps us o → Keeps vs o → Keeps (us ++ vs) o
Keeps-append us vs o h g = run_uses-append us vs o o h ∙ g

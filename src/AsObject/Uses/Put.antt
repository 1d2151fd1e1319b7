-- ===== src/AsObject/Uses/Put.antt =====
-- What `PUT` (include/as_object.hpp) acquires, uses and gives back: the key, the record, and what is made
-- for the values of the members.
use as_proxyd.Aerospike.{Aerospike, Key}
use as_proxyd.AsObject.{AsObject, put}
use as_proxyd.Common.{
  ℤ, Bool, true, false, not, ◌&&◌, List, [], ◌∷◌, ◌++◌, Option, none, some, ◌≡◌, all, sym,
  append_assoc, refl, ◌∙◌, ap, arith, if◌then◌else◌, ◌==◌, Bytes,
}
use as_proxyd.Jansson.{
  Jansson, JsonType, object, array, string as json_str, integer as json_int, real, true_value,
  false_value, null, plain,
}
use as_proxyd.Ownership.{
  Name, value, key, rec, buffer, cs, Use, acquires, reads, gives, releases, owns, without, run_uses,
  run_uses-append,
}

-- What `PUT` may lose: a value that a record did not take, and the text of a number.
abbrev is_lost : Name → Bool
is_lost value = true
is_lost cs = true
is_lost _ = false

abbrev are_lost : List Name → Bool
are_lost = all is_lost

are_lost-append :
    (xs ys : List Name) → are_lost xs ≡ true → are_lost ys ≡ true → are_lost (xs ++ ys) ≡ true
are_lost-append [] ys h k = k
are_lost-append (x ∷ xs) ys h k = ground (arith, are_lost-append xs ys)

owns-append :
    (xs o : List Name) → are_lost xs ≡ true → owns rec o ≡ true → owns rec (xs ++ o) ≡ true
unfolding owns
owns-append [] o h k = k
owns-append (value ∷ xs) o h k = owns-append xs o h k
owns-append (cs ∷ xs) o h k = owns-append xs o h k
owns-append (_ ∷ xs) o h k = cc

end_uses_lem :
    (xs : List Name)
    → are_lost xs ≡ true
    → run_uses (releases key ∷ releases rec ∷ []) (xs ++ rec ∷ key ∷ []) ≡ some xs
unfolding run_uses owns without
end_uses_lem [] h = refl
end_uses_lem (value ∷ xs) h = ground (arith, end_uses_lem xs)
end_uses_lem (cs ∷ xs) h = ground (arith, end_uses_lem xs)
end_uses_lem (_ ∷ xs) h = cc

module _ (J : Jansson) (is_bin_name : Bytes → Bool) where
  open J use {Json, json_typeof, json_dumps, json_object_size}

  -- The record takes a value over if it takes the name.
  abbrev pub set_uses : Bool → List Use
  set_uses true = gives rec value ∷ []
  set_uses false = []

  -- The text of `json_dumps` goes to the bytes of `as_bytes_new_wrap`, and these to the record; `strlen` of
  -- NULL is undefined.
  abbrev pub dumped_uses : Bool → Option Bytes → List Use
  dumped_uses ok none = []
  dumped_uses ok (some t) =
      acquires buffer ∷ reads buffer ∷ acquires value ∷ gives value buffer ∷ set_uses ok

  -- The `switch`, by whether the record takes the name. It takes over what `as_integer_new` and
  -- `as_bytes_new_wrap` make, and refers to the text that `as_record_set_str` is given, `cs` of
  -- `doubleToLPSTR` or the text of the JSON string.
  unfoldable pub member_uses : Bool → JsonType → Json → List Use
  member_uses ok json_int v = acquires value ∷ set_uses ok
  member_uses ok json_str v = []
  member_uses ok real v = acquires cs ∷ reads cs ∷ []
  member_uses ok null v = []
  member_uses ok true_value v = acquires value ∷ set_uses ok
  member_uses ok false_value v = acquires value ∷ set_uses ok
  member_uses ok object v = dumped_uses ok (json_dumps plain v)
  member_uses ok array v = dumped_uses ok (json_dumps plain v)

  unfoldable pub members_uses : List (Bytes × Json) → List Use
  unfolding member_uses
  members_uses [] = []
  members_uses ((k, v) ∷ ms) = member_uses (is_bin_name k) (json_typeof v) v ++ members_uses ms

  unfoldable pub put_uses : Json → AsObject → List Use
  unfolding members_uses
  put_uses json o =
      if o.isalive
      then (if json_object_size json == 0
          then []
          else acquires key
            ∷ acquires rec
            ∷ (members_uses (J.members json) ++ releases key ∷ releases rec ∷ []))
      else []

  -- What is lost for a member: what was made for it, if the record does not take its name, and the text
  -- of a number in any case.
  abbrev pub untaken : Bool → List Name
  untaken true = []
  untaken false = value ∷ []

  abbrev pub dumped_lost : Bool → Option Bytes → List Name
  dumped_lost ok none = []
  dumped_lost ok (some t) = untaken ok

  abbrev pub lost : Bool → JsonType → Json → List Name
  lost ok json_str v = []
  lost ok null v = []
  lost ok real v = cs ∷ []
  lost ok object v = dumped_lost ok (json_dumps plain v)
  lost ok array v = dumped_lost ok (json_dumps plain v)
  lost ok json_int v = untaken ok
  lost ok true_value v = untaken ok
  lost ok false_value v = untaken ok

  -- For all members, the last one's first.
  abbrev pub all_lost : List (Bytes × Json) → List Name
  all_lost [] = []
  all_lost ((k, v) ∷ ms) = all_lost ms ++ lost (is_bin_name k) (json_typeof v) v

  untaken-are_lost : (ok : Bool) → are_lost (untaken ok) ≡ true
  untaken-are_lost true = refl
  untaken-are_lost false = refl

  dumped-are_lost : (ok : Bool) (q : Option Bytes) → are_lost (dumped_lost ok q) ≡ true
  dumped-are_lost ok none = refl
  dumped-are_lost ok (some t) = untaken-are_lost ok

  lost-are_lost : (ok : Bool) (t : JsonType) (v : Json) → are_lost (lost ok t v) ≡ true
  lost-are_lost ok json_str v = refl
  lost-are_lost ok null v = refl
  lost-are_lost ok real v = refl
  lost-are_lost ok object v = dumped-are_lost ok (json_dumps plain v)
  lost-are_lost ok array v = dumped-are_lost ok (json_dumps plain v)
  lost-are_lost ok json_int v = untaken-are_lost ok
  lost-are_lost ok true_value v = untaken-are_lost ok
  lost-are_lost ok false_value v = untaken-are_lost ok

  all_lost-are_lost : (ms : List (Bytes × Json)) → are_lost (all_lost ms) ≡ true
  all_lost-are_lost [] = refl
  all_lost-are_lost ((k, v) ∷ ms) =
      are_lost-append (all_lost ms) _ (all_lost-are_lost ms)
        (lost-are_lost (is_bin_name k) (json_typeof v) v)

  value_uses_lem :
      (ok : Bool) (o : List Name)
      → owns rec o ≡ true
      → run_uses (acquires value ∷ set_uses ok) o ≡ some (untaken ok ++ o)
  unfolding run_uses owns without
  value_uses_lem true o h = ground arith
  value_uses_lem false o h = refl

  dumped_uses_lem :
      (ok : Bool) (q : Option Bytes) (o : List Name)
      → owns rec o ≡ true
      → run_uses (dumped_uses ok q) o ≡ some (dumped_lost ok q ++ o)
  unfolding run_uses owns without
  dumped_uses_lem ok none o h = refl
  dumped_uses_lem true (some t) o h = ground arith
  dumped_uses_lem false (some t) o h = ground arith

  member_uses_lem :
      (ok : Bool) (t : JsonType) (v : Json) (o : List Name)
      → owns rec o ≡ true
      → run_uses (member_uses ok t v) o ≡ some (lost ok t v ++ o)
  unfolding run_uses owns without member_uses
  member_uses_lem ok json_int v o h = value_uses_lem ok o h
  member_uses_lem ok json_str v o h = refl
  member_uses_lem ok real v o h = refl
  member_uses_lem ok null v o h = refl
  member_uses_lem ok true_value v o h = value_uses_lem ok o h
  member_uses_lem ok false_value v o h = value_uses_lem ok o h
  member_uses_lem ok object v o h = dumped_uses_lem ok (json_dumps plain v) o h
  member_uses_lem ok array v o h = dumped_uses_lem ok (json_dumps plain v) o h

  members_uses_lem :
      (ms : List (Bytes × Json)) (o : List Name)
      → owns rec o ≡ true
      → run_uses (members_uses ms) o ≡ some (all_lost ms ++ o)
  unfolding members_uses
  members_uses_lem [] o h = unfold run_uses in refl
  members_uses_lem ((k, v) ∷ ms) o h =
      let n = lost (is_bin_name k) (json_typeof v) v in
      run_uses-append (member_uses (is_bin_name k) (json_typeof v) v) (members_uses ms) o (n ++ o)
        (member_uses_lem (is_bin_name k) (json_typeof v) v o h)
      ∙ members_uses_lem ms (n ++ o)
          (owns-append n o (lost-are_lost (is_bin_name k) (json_typeof v) v) h)
      ∙ ap some (sym (append_assoc (all_lost ms) n o))

  put_uses-lost :
      (json : Json) (o : AsObject)
      → run_uses (put_uses json o) []
        ≡ some (
            if o.isalive && not (json_object_size json == 0) then all_lost (J.members json) else [])
  unfolding put_uses run_uses
  put_uses-lost json o = ground (
    arith,
    run_uses-append (members_uses (J.members json)) (releases key ∷ releases rec ∷ [])
        (rec ∷ key ∷ []) _
        (members_uses_lem (J.members json) (rec ∷ key ∷ []) (unfold owns in refl)),
    end_uses_lem (all_lost (J.members json)) (all_lost-are_lost (J.members json)),
  )

-- If a `PUT` is defined, it uses and gives back nothing that is not owned any more. If the client is alive
-- and the object is not empty, it loses the text of each number that is not an integer, and, where the
-- record does not take a member's name, the integer or the bytes that were made for its value; nothing
-- else. If not, it loses nothing.
pub put-uses :
    (A : Aerospike) (J : Jansson) (gunzip : Bytes → Option Bytes) (streamed : J.Real → Bytes)
    (k : Key) (json : J.Json) (ttl : ℤ) (o : AsObject) (w : A.Cluster)
    (x : ℤ × AsObject × A.Cluster)
    → put A J gunzip streamed k json ttl o w ≡ some x
    → run_uses (put_uses J A.is_bin_name json o) []
      ≡ some (
          if o.isalive && not (J.json_object_size json == 0)
          then all_lost J A.is_bin_name (J.members json)
          else [])
put-uses A J gunzip streamed k json ttl o w x e = put_uses-lost J A.is_bin_name json o

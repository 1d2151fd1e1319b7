-- ===== src/AsObject/Store/Returned.antt =====
-- What `GET` (include/as_object.hpp) shows of what `PUT` stored.
use as_proxyd.Aerospike.{AsValue}
use as_proxyd.AsObject.Convert.{stored, shown, bytes_shown, data_convert_to_json_v1}
use as_proxyd.AsObject.Convert.Members.{
  IsReadable, last_shown, overridden, Holds, data_convert-Holds,
}
use as_proxyd.AsObject.Convert.Strings.{two_symbols, string_value_cases}
use as_proxyd.AsObject.Store.{bin_of, put_bins, wrapped, add}
use as_proxyd.Common.{
  Bool, true, false, not, List, [], ◌∷◌, ◌++◌, Option, none, some, ◌≡◌, refl, ◌∙◌, sym, ap,
  if◌then◌else◌, ◌==◌, Bytes, All, all, until_nul, until_nul-all, c_string, c_string-append, pos,
}
use as_proxyd.Jansson.{
  Jansson, JsonType, object, array, string, integer, real, true_value, false_value, null, plain,
}
use as_proxyd.Parser.{is_empty}

abbrev pub no_nul : Bytes → Bool
no_nul = all (λ c. not (c == 0))

module _ (J : Jansson) (is_bin_name : Bytes → Bool) (streamed : J.Real → Bytes)
    (gunzip : Bytes → Option Bytes) where
  open J use {
    Json, json_typeof, json_object_get, json_integer, json_integer_value, json_string,
    json_string_value, json_real_value, json_dumps, json_loads,
  }

  -- A value whose text is read back as it.
  abbrev pub IsDocument : Json → Type 0
  IsDocument v =
      (t : Bytes) × (json_dumps plain v ≡ some t) × (no_nul t ≡ true) × (json_loads t ≡ some v)

  -- A text that is not empty and does not look like base64.
  abbrev pub IsPlain : Bytes → Type 0
  IsPlain s = (is_empty s ≡ false) × (no_nul s ≡ true) × (two_symbols s ≡ false)

  -- The values that come back; `null` deletes a bin, and the text of a number that is not an integer is
  -- too short for `doubleToLPSTR`.
  abbrev pub Survives : JsonType → Json → Type 0
  Survives object v = IsDocument v
  Survives array v = IsDocument v
  Survives string v = IsPlain (json_string_value v)
  Survives real v = ⊥
  Survives null v = ⊥
  Survives _ v = Unit

  -- What comes back: truth values as 1 and 0.
  abbrev pub returned : JsonType → Json → Option Json
  returned integer v = some (json_integer (json_integer_value v))
  returned true_value v = some (json_integer (pos 1))
  returned false_value v = some (json_integer (pos 0))
  returned string v = json_string (json_string_value v)
  returned _ v = some v

  abbrev Back : JsonType → Json → Option AsValue → Type 0
  Back t v none = ⊥
  Back t v (some a) =
      (shown J gunzip a ≡ stored (returned t v)) × ((k : Bytes) → IsReadable J gunzip (k, a))

  string-Back :
      (s : Bytes)
      → IsPlain s
      → shown J gunzip (AsValue.string (some (until_nul s))) ≡ stored (json_string s)
  unfolding shown
  string-Back [] (n, _, p) = cc
  string-Back (c ∷ s) (n, z, p) =
      rw (until_nul-all (c ∷ s) z)
        (rw (until_nul-all (c ∷ s) z) (ap stored ((string_value_cases J gunzip (c ∷ s)).0 p)))

  bytes-Back :
      (t : Bytes)
      → no_nul t ≡ true
      → (shown J gunzip (AsValue.bytes (t ++ 0 ∷ [])) ≡ stored (json_loads t))
        × ((k : Bytes) → IsReadable J gunzip (k, AsValue.bytes (t ++ 0 ∷ [])))
  unfolding shown
  bytes-Back [] z = unfold c_string in (refl, λ k. ([], refl))
  bytes-Back (c ∷ s) z =
      let e = c_string-append (c ∷ s) [] z in (ap (bytes_shown J gunzip) e, λ k. (c ∷ s, e))

  document-Back :
      (ty : JsonType) (v : Json)
      → returned ty v ≡ some v
      → IsDocument v
      → Back ty v (wrapped J is_bin_name streamed (json_dumps plain v))
  document-Back ty v q (t, d, z, l) =
      rw (d, wrapped)
        (rw (until_nul-all t z) ((bytes-Back t z).0 ∙ ap stored (l ∙ sym q), (bytes-Back t z).1))

  bin_of-Back :
      (ty : JsonType) (v : Json) → Survives ty v → Back ty v (bin_of J is_bin_name streamed ty v)
  unfolding bin_of
  bin_of-Back object v s = document-Back object v refl s
  bin_of-Back array v s = document-Back array v refl s
  bin_of-Back string v s = (string-Back (json_string_value v) s, λ k. tt)
  bin_of-Back real v s = absurd s
  bin_of-Back null v s = absurd s
  bin_of-Back integer v s = unfold shown in (refl, λ k. tt)
  bin_of-Back true_value v s = unfold shown in (refl, λ k. tt)
  bin_of-Back false_value v s = unfold shown in (refl, λ k. tt)

  -- The last member of that key, as it comes back; a member with an empty key does not.
  abbrev pub last_returned : List (Bytes × Json) → Bytes → Option Json → Option Json
  last_returned [] k old = old
  last_returned ((name, v) ∷ ms) k old = last_returned ms k (
      if is_empty name
      then old
      else overridden J gunzip k name (stored (returned (json_typeof v) v)) old)

  abbrev pub AllSurvive : List (Bytes × Json) → Type 0
  AllSurvive [] = Unit
  AllSurvive ((name, v) ∷ ms) =
      (is_bin_name name ≡ true) × Survives (json_typeof v) v × AllSurvive ms

  abbrev pub Stored : List (Bytes × Json) → Option (List (Bytes × AsValue)) → Type 0
  Stored ms none = ⊥
  Stored ms (some bs) =
      All (IsReadable J gunzip) bs
      × ((k : Bytes) (old : Option Json) → last_shown J gunzip bs k old ≡ last_returned ms k old)

  cons-Stored :
      (name : Bytes) (v : Json) (ms : List (Bytes × Json)) (a : Option AsValue)
      (rest : Option (List (Bytes × AsValue)))
      → is_bin_name name ≡ true
      → Back (json_typeof v) v a
      → Stored ms rest
      → Stored ((name, v) ∷ ms) (add J is_bin_name streamed name a rest)
  cons-Stored name v ms none rest n b s = b
  cons-Stored name v ms (some a) none n b s = s
  cons-Stored name v ms (some a) (some bs) n (e, r) (rs, f) = rw n (
    (r name, rs),
    λ k old.
        ap
          (λ x.
            last_shown J gunzip bs k
              (if is_empty name then old else overridden J gunzip k name x old))
          e
        ∙ f k _,
  )

  pub put_bins-Stored :
      (ms : List (Bytes × Json)) → AllSurvive ms → Stored ms (put_bins J is_bin_name streamed ms)
  unfolding put_bins
  put_bins-Stored [] s = (tt, λ k old. refl)
  put_bins-Stored ((name, v) ∷ ms) (n, s, a) =
      cons-Stored name v ms _ _ n (bin_of-Back (json_typeof v) v s) (put_bins-Stored ms a)

  Stored-convert :
      (ms : List (Bytes × Json)) (o : Option (List (Bytes × AsValue)))
      → Stored ms o
      → (bs : List (Bytes × AsValue)) × (o ≡ some bs)
        × (r : Json) × (data_convert_to_json_v1 J gunzip bs J.json_object ≡ some r)
        × Holds J gunzip r (λ k. last_returned ms k none)
  Stored-convert ms none s = absurd s
  Stored-convert ms (some bs) (a, f) =
      let (r, e, h) =
        data_convert-Holds J gunzip bs J.json_object (λ k. none) a
          (J.typeof-json_object, J.get-json_object) in
      (bs, refl, r, e, (h.0, λ k. h.1 k ∙ f k none))

  -- What is put comes back. The members of an object have names that are taken for bins, and none is
  -- null or a number that is not an integer; strings are not empty and do not begin with two symbols
  -- of base64; the text of each object or array among them is read back as it; neither holds a NUL. Then
  -- the bins that `PUT` makes of the members are turned by `GET` into an object with the last member
  -- of each key: objects, arrays and strings as they are, integers by their value, truth values as
  -- 1 and 0. A member with an empty key does not come back.
  pub put_bins-data_convert :
      (ms : List (Bytes × Json))
      → AllSurvive ms
      → (bs : List (Bytes × AsValue)) × (put_bins J is_bin_name streamed ms ≡ some bs)
        × (r : Json) × (data_convert_to_json_v1 J gunzip bs J.json_object ≡ some r)
        × (json_typeof r ≡ object)
        × ((k : Bytes) → json_object_get r k ≡ last_returned ms k none)
  put_bins-data_convert ms a =
      let (bs, e, r, f, h) =
        Stored-convert ms (put_bins J is_bin_name streamed ms) (put_bins-Stored ms a) in
      (bs, e, r, f, h.0, h.1)

-- ===== src/AsObject/Convert/Members.antt =====
-- The members that `data_convert_to_json_v1` (include/as_object.hpp) gives an object.
use as_proxyd.Aerospike.{AsValue, string, bytes}
use as_proxyd.AsObject.Convert.{
  Shown, skipped, stored, undefined, shown, add_shown, bytes_shown, add_bin,
  data_convert_to_json_v1,
}
use as_proxyd.Common.{
  Bool, true, false, List, [], ◌∷◌, Option, none, some, ◌≡◌, ◌≢◌, refl, ◌∙◌, ap, if◌then◌else◌, All,
  Bytes, bytes_eq, c_string,
}
use as_proxyd.Jansson.{Jansson, object}
use as_proxyd.Parser.{is_empty}

module _ (J : Jansson) (gunzip : Bytes → Option Bytes) where
  open J use {Json, json_typeof, json_object_get, json_object_set}

  -- A bin of bytes holds a NUL, so that the parser of its text stays within the buffer.
  abbrev pub IsReadable : Bytes × AsValue → Type 0
  IsReadable (name, bytes (c ∷ s)) = (t : Bytes) × (c_string (c ∷ s) ≡ some t)
  IsReadable (name, value) = Unit

  -- The member `k` behind a bin, from what it was before.
  abbrev pub overridden : Bytes → Bytes → Shown J gunzip → Option Json → Option Json
  overridden k name skipped old = old
  overridden k name (stored none) old = old
  overridden k name (stored (some v)) old = if bytes_eq name k then some v else old
  overridden k name undefined old = old

  -- The value of the last bin of that name that has one.
  abbrev pub last_shown : List (Bytes × AsValue) → Bytes → Option Json → Option Json
  last_shown [] k old = old
  last_shown ((name, value) ∷ bs) k old =
      last_shown bs k (if is_empty name then old else overridden k name (shown J gunzip value) old)

  -- An object in which each member is given by `f`.
  abbrev pub Holds : Json → (Bytes → Option Json) → Type 0
  Holds o f = (json_typeof o ≡ object) × ((k : Bytes) → json_object_get o k ≡ f k)

  abbrev Added : Option Json → (Bytes → Option Json) → Type 0
  Added r f = (o : Json) × (r ≡ some o) × Holds o f

  add_shown-Holds :
      (name : Bytes) (s : Shown J gunzip) (o : Json) (f : Bytes → Option Json)
      → Holds o f
      → s ≢ undefined
      → Added (add_shown J gunzip name s o) (λ k. overridden k name s (f k))
  add_shown-Holds name skipped o f h d = (o, refl, h)
  add_shown-Holds name (stored none) o f h d = (o, ap some (J.set_null o name), h)
  add_shown-Holds name (stored (some v)) o f h d = (
    json_object_set o name (some v),
    refl,
    (
      J.typeof-set o name (some v) ∙ h.0,
      λ k. J.get-set o v name k h.0 ∙ ap (λ x. if bytes_eq name k then some v else x) (h.1 k),
    ),
  )
  add_shown-Holds name undefined o f h d = absurd (d refl)

  shown-defined :
      (name : Bytes) (value : AsValue) → IsReadable (name, value) → shown J gunzip value ≢ undefined
  unfolding shown
  shown-defined name (bytes (c ∷ s)) (t, e) = rw (e, bytes_shown) (λ q. cc)
  shown-defined name (bytes []) r = λ q. cc
  shown-defined name (string none) r = λ q. cc
  shown-defined name (string (some [])) r = λ q. cc
  shown-defined name (string (some (c ∷ s))) r = λ q. cc
  shown-defined name _ r = λ q. cc

  add_bin-Holds :
      (name : Bytes) (value : AsValue) (o : Json) (f : Bytes → Option Json) (b : Bool)
      → is_empty name ≡ b
      → Holds o f
      → IsReadable (name, value)
      → Added
          (add_bin J gunzip (name, value) o)
          (λ k. if b then f k else overridden k name (shown J gunzip value) (f k))
  unfolding add_bin
  add_bin-Holds name value o f true e h r = rw e (o, refl, h)
  add_bin-Holds name value o f false e h r =
      rw e (add_shown-Holds name (shown J gunzip value) o f h (shown-defined name value r))

  -- If every bin of bytes holds a NUL, the code reads within the record, and the object it fills has
  -- under each key the value of the last bin of that name that has one, and what it had before if
  -- there is none: a bin has none if its name, its bytes or its string is empty, or if its text is
  -- not JSON.
  pub data_convert-Holds :
      (bs : List (Bytes × AsValue)) (o : Json) (f : Bytes → Option Json)
      → All IsReadable bs
      → Holds o f
      → (r : Json) × (data_convert_to_json_v1 J gunzip bs o ≡ some r)
        × Holds r (λ k. last_shown bs k (f k))
  unfolding data_convert_to_json_v1
  data_convert-Holds [] o f a h = (o, refl, h)
  data_convert-Holds ((name, value) ∷ bs) o f (r, a) h =
      let (o', e, h') = add_bin-Holds name value o f (is_empty name) refl h r in
      rw (e, data_convert_to_json_v1) (data_convert-Holds bs o' _ a h')

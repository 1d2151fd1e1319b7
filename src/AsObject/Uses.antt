-- ===== src/AsObject/Uses.antt =====
-- What `GET` and `data_convert_to_json_v1` (include/as_object.hpp) acquire, use and give
-- back, in the order of the code.
pub mod Put
pub mod Status
use as_proxyd.Aerospike.{
  AsValue, boolean, integer, string, bytes, list, map, nil, other, Key, Aerospike,
}
use as_proxyd.AsObject.{AsObject, key_init}
use as_proxyd.AsObject.Convert.{inflated}
use as_proxyd.Base64.{base64_decode}
use as_proxyd.Common.{
  Bool, true, false, List, [], ◌∷◌, ◌++◌, Option, none, some, ◌≡◌, refl, ◌∙◌, sym, ap, arith,
  if◌then◌else◌, Bytes, codes, eq_ℤ, until_nul, c_string,
}
use as_proxyd.Jansson.{Jansson}
use as_proxyd.Ownership.{
  Name, root, bins, value, key, rec, src_value, gzencode, buffer, Use, acquires, reads, gives,
  releases, owns, without, run_uses, run_uses-append, Keeps, Keeps-append,
}
use as_proxyd.Parser.{is_empty}

module _ (J : Jansson) (gunzip : Bytes → Option Bytes) where
  open J use {Json, json_integer, json_string, json_boolean, json_loads}

  -- `json_object_set_new_nocheck(bins, ...)` takes the value over. For NULL it does nothing.
  abbrev pub stored_uses : Option Json → List Use
  stored_uses none = reads bins ∷ []
  stored_uses (some v) = acquires value ∷ gives bins value ∷ []

  -- The text of `gzdecode` is copied and freed.
  abbrev pub inflate_uses : Option Bytes → List Use
  inflate_uses none = []
  inflate_uses (some t) = acquires gzencode ∷ reads gzencode ∷ releases gzencode ∷ []

  -- The branches on the decoded text.
  unfoldable pub string_uses : Bytes → List Use
  string_uses src =
      let decoded = base64_decode src in
      if is_empty decoded
      then reads src_value ∷ stored_uses (json_string src)
      else inflate_uses (gunzip decoded)
        ++ stored_uses (json_loads (until_nul (inflated J gunzip decoded (gunzip decoded))))

  abbrev pub bytes_uses : Option Bytes → List Use
  bytes_uses none = []
  bytes_uses (some t) = stored_uses (json_loads t)

  -- The text of `as_val_tostring`.
  abbrev pub text_uses : Bytes → List Use
  text_uses t =
      (acquires buffer
        ∷ reads buffer
        ∷ (stored_uses (json_loads (until_nul t)) ++ releases buffer ∷ []))

  unfoldable pub value_uses : AsValue → List Use
  unfolding string_uses
  value_uses (boolean b) = stored_uses (some (json_boolean b))
  value_uses (integer n) = stored_uses (some (json_integer n))
  value_uses (string none) = []
  value_uses (string (some [])) = []
  value_uses (string (some (c ∷ s))) =
      (acquires src_value
        ∷ reads src_value
        ∷ (string_uses (until_nul (c ∷ s)) ++ releases src_value ∷ []))
  value_uses (bytes []) = []
  value_uses (bytes (c ∷ s)) = bytes_uses (c_string (c ∷ s))
  value_uses (list t) = text_uses t
  value_uses (map t) = text_uses t
  value_uses nil = stored_uses (json_string [])
  value_uses other = stored_uses (json_string [])

  -- A round of `data_convert_to_json_v1`, and the loop.
  unfoldable pub bin_uses : Bytes × AsValue → List Use
  unfolding value_uses
  bin_uses (name, v) = if is_empty name then [] else value_uses v

  unfoldable pub convert_uses : List (Bytes × AsValue) → List Use
  unfolding bin_uses
  convert_uses [] = []
  convert_uses (b ∷ bs) = bin_uses b ++ convert_uses bs

  stored_uses-Keeps :
      (q : Option Json) (o : List Name) → owns bins o ≡ true → Keeps (stored_uses q) o
  unfolding run_uses owns without
  stored_uses-Keeps none o h = ground arith
  stored_uses-Keeps (some v) o h = ground arith

  inflate_uses-Keeps : (q : Option Bytes) (o : List Name) → Keeps (inflate_uses q) o
  unfolding run_uses owns without
  inflate_uses-Keeps none o = refl
  inflate_uses-Keeps (some t) o = ground arith

  if-Keeps :
      (b : Bool) (us vs : List Use) (o : List Name)
      → Keeps us o
      → Keeps vs o
      → Keeps (if b then us else vs) o
  if-Keeps true us vs o h g = h
  if-Keeps false us vs o h g = g

  reads-Keeps :
      (us : List Use) (o : List Name)
      → Keeps us (src_value ∷ o)
      → Keeps (reads src_value ∷ us) (src_value ∷ o)
  unfolding run_uses owns
  reads-Keeps us o h = ground arith

  string_uses-Keeps :
      (src : Bytes) (o : List Name) → owns bins o ≡ true → Keeps (string_uses src) (src_value ∷ o)
  unfolding string_uses
  string_uses-Keeps src o h =
      let g : owns bins (src_value ∷ o) ≡ true = unfold owns in h in
      if-Keeps (is_empty (base64_decode src)) _ _ (src_value ∷ o)
        (reads-Keeps _ o (stored_uses-Keeps _ (src_value ∷ o) g))
        (Keeps-append (inflate_uses (gunzip (base64_decode src))) _ (src_value ∷ o)
          (inflate_uses-Keeps _ _) (stored_uses-Keeps _ _ g))

  around-Keeps :
      (x : Name) (us : List Use) (o : List Name)
      → Keeps us (x ∷ o)
      → Keeps (acquires x ∷ reads x ∷ (us ++ releases x ∷ [])) o
  unfolding run_uses owns without
  around-Keeps x us o h = ground (arith, run_uses-append us (releases x ∷ []) (x ∷ o) (x ∷ o) h)

  text_uses-Keeps : (t : Bytes) (o : List Name) → owns bins o ≡ true → Keeps (text_uses t) o
  unfolding owns
  text_uses-Keeps t o h =
      let q = json_loads (until_nul t) in
      around-Keeps buffer (stored_uses q) o (stored_uses-Keeps q (buffer ∷ o) h)

  value_uses-Keeps : (v : AsValue) (o : List Name) → owns bins o ≡ true → Keeps (value_uses v) o
  unfolding value_uses run_uses owns
  value_uses-Keeps (boolean b) o h = stored_uses-Keeps (some (json_boolean b)) o h
  value_uses-Keeps (integer n) o h = stored_uses-Keeps (some (json_integer n)) o h
  value_uses-Keeps (string none) o h = refl
  value_uses-Keeps (string (some [])) o h = refl
  value_uses-Keeps (string (some (c ∷ s))) o h =
      around-Keeps src_value (string_uses (until_nul (c ∷ s))) o
        (string_uses-Keeps (until_nul (c ∷ s)) o h)
  value_uses-Keeps (bytes []) o h = refl
  value_uses-Keeps (bytes (c ∷ s)) o h = bytes-Keeps (c_string (c ∷ s))
    where
      bytes-Keeps : (q : Option Bytes) → Keeps (bytes_uses q) o
      bytes-Keeps none = refl
      bytes-Keeps (some t) = stored_uses-Keeps _ o h
  value_uses-Keeps (list t) o h = text_uses-Keeps t o h
  value_uses-Keeps (map t) o h = text_uses-Keeps t o h
  value_uses-Keeps nil o h = stored_uses-Keeps _ o h
  value_uses-Keeps other o h = stored_uses-Keeps _ o h

  -- What the bins acquire has been given to the object of the bins or back.
  pub convert_uses-Keeps :
      (bs : List (Bytes × AsValue)) (o : List Name) → owns bins o ≡ true → Keeps (convert_uses bs) o
  unfolding convert_uses bin_uses run_uses
  convert_uses-Keeps [] o h = refl
  convert_uses-Keeps ((name, v) ∷ bs) o h =
      Keeps-append (bin_uses (name, v)) (convert_uses bs) o
        (if-Keeps (is_empty name) [] (value_uses v) o refl (value_uses-Keeps v o h))
        (convert_uses-Keeps bs o h)

  module _ (A : Aerospike) where
    -- `GET`. The record is given back if it was read.
    unfoldable pub get_uses : Key → AsObject → A.Cluster → List Use
    unfolding convert_uses
    get_uses k o w =
        if o.isalive
        then (let (st, r, w') = A.aerospike_key_get o.config (key_init A k) w in
            if eq_ℤ st A.aerospike_ok
            then acquires key
              ∷ acquires rec
              ∷ releases key
              ∷ (convert_uses r.bins ++ releases rec ∷ [])
            else acquires key ∷ releases key ∷ [])
        else []

    pub get_uses-Keeps :
        (k : Key) (a : AsObject) (w : A.Cluster) (o : List Name)
        → owns bins o ≡ true
        → Keeps (get_uses k a w) o
    unfolding get_uses run_uses owns without
    get_uses-Keeps k a w o h =
        let r = (A.aerospike_key_get a.config (key_init A k) w).1 in
        ground (
          arith,
          run_uses-append (convert_uses r.bins) (releases rec ∷ []) (rec ∷ o) (rec ∷ o)
              (convert_uses-Keeps r.bins (rec ∷ o) (unfold owns in h)),
        )

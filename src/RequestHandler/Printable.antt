-- ===== src/RequestHandler/Printable.antt =====
-- What `handle_request` (src/request_handler.cpp) gives to `json_dumps`, and when that has a text.
use as_proxyd.Aerospike.{
  AsValue, AsRecord, Config, Key, boolean, integer, string, bytes, list, map, nil, other,
}
use as_proxyd.AsObject.{key_init, AsObject, Outcome, found, get}
use as_proxyd.AsObject.Convert.{
  Shown, skipped, stored, undefined, string_value, shown, add_shown, bytes_shown, add_bin,
  data_convert_to_json_v1,
}
use as_proxyd.Base64.{base64_decode}
use as_proxyd.Common.{
  ℕ, ℤ, Bool, true, false, List, [], ◌∷◌, Option, none, some, ◌≡◌, refl, if◌then◌else◌, ◌==◌, Bytes,
  codes, until_nul, c_string, All, eq_ℤ, bytes_eq, pos,
}
use as_proxyd.Control.{Control, lookup, get_as_object}
use as_proxyd.Env.{Env}
use as_proxyd.Jansson.{Jansson, compact}
use as_proxyd.Parser.{is_empty}
use as_proxyd.Request.{Request}
use as_proxyd.RequestHandler.{
  World, empty_got, got, get_with, get_members, members_for, status_members, root_for, target, took,
  key_of, results_member,
}

abbrev pub AllSome {ℓ} : {T : Type ℓ} → (T → Type 0) → Option T → Type 0
AllSome P none = Unit
AllSome P (some x) = P x

pub if-AllSome {ℓ} :
    {T : Type ℓ} (P : T → Type 0) (c : Bool) (x y : Option T)
    → AllSome P x
    → AllSome P y
    → AllSome P (if c then x else y)
if-AllSome P true x y p q = p
if-AllSome P false x y p q = q

pub and_then-AllSome :
    {A B : Type 0} (P : A → Type 0) (Q : B → Type 0) (q : Option A) (f : A → Option B)
    → AllSome P q
    → ((x : A) → P x → AllSome Q (f x))
    → AllSome Q (elim q [ none ↦ none | some x ↦ f x ])
and_then-AllSome P Q none f p h = tt
and_then-AllSome P Q (some x) f p h = h x p

pub either {ℓ} :
    {T : Type ℓ} (P : T → Type 0) (c : Bool) (x y : T) → P x → P y → P (if c then x else y)
either P true x y p q = p
either P false x y p q = q

module _ (J : Jansson) (gunzip : Bytes → Option Bytes) where
  open J use {Json, json_object_set, json_loads, json_string, IsPrintable}

  abbrev pub IsNamed : Bytes × AsValue → Type 0
  IsNamed (name, value) = J.is_utf8 name ≡ true

  abbrev IsShown : Shown J gunzip → Type 0
  IsShown skipped = Unit
  IsShown (stored v) = AllSome IsPrintable v
  IsShown undefined = Unit

  present : (o : Option Json) → ((v : Json) → o ≡ some v → IsPrintable v) → AllSome IsPrintable o
  present none h = tt
  present (some v) h = h v refl

  loaded : (t : Bytes) → AllSome IsPrintable (json_loads t)
  loaded t = present (json_loads t) (J.json_loads-IsPrintable t)

  pub quoted : (s : Bytes) → AllSome IsPrintable (json_string s)
  quoted s = present (json_string s) (J.json_string-IsPrintable s)

  pub measured : (x : J.Real) → AllSome IsPrintable (J.json_real x)
  measured x = present (J.json_real x) (J.json_real-IsPrintable x)

  string_value-IsPrintable : (src : Bytes) → AllSome IsPrintable (string_value J gunzip src)
  unfolding string_value
  string_value-IsPrintable src =
      if-AllSome IsPrintable (is_empty (base64_decode src)) _ _ (quoted src) (loaded _)

  bytes_shown-IsShown : (o : Option Bytes) → IsShown (bytes_shown J gunzip o)
  bytes_shown-IsShown none = tt
  bytes_shown-IsShown (some t) = loaded t

  shown-IsShown : (v : AsValue) → IsShown (shown J gunzip v)
  unfolding shown
  shown-IsShown (boolean b) = J.json_boolean-IsPrintable b
  shown-IsShown (integer n) = J.json_integer-IsPrintable n
  shown-IsShown (string none) = tt
  shown-IsShown (string (some [])) = tt
  shown-IsShown (string (some (c ∷ s))) = string_value-IsPrintable (until_nul (c ∷ s))
  shown-IsShown (bytes []) = tt
  shown-IsShown (bytes (c ∷ s)) = bytes_shown-IsShown (c_string (c ∷ s))
  shown-IsShown (list t) = loaded _
  shown-IsShown (map t) = loaded _
  shown-IsShown nil = quoted []
  shown-IsShown other = quoted []

  pub set-IsPrintable :
      (o : Json) (k : Bytes) (v : Option Json)
      → IsPrintable o
      → J.is_utf8 k ≡ true
      → AllSome IsPrintable v
      → IsPrintable (json_object_set o k v)
  set-IsPrintable o k none p h q = rw (J.set_null o k) p
  set-IsPrintable o k (some v) p h q = J.set-IsPrintable o v k p q h

  add_shown-IsPrintable :
      (k : Bytes) (s : Shown J gunzip) (o : Json)
      → IsPrintable o
      → J.is_utf8 k ≡ true
      → IsShown s
      → AllSome IsPrintable (add_shown J gunzip k s o)
  add_shown-IsPrintable k skipped o p h q = p
  add_shown-IsPrintable k (stored v) o p h q = set-IsPrintable o k v p h q
  add_shown-IsPrintable k undefined o p h q = tt

  add_bin-IsPrintable :
      (name : Bytes) (v : AsValue) (o : Json)
      → IsPrintable o
      → J.is_utf8 name ≡ true
      → AllSome IsPrintable (add_bin J gunzip (name, v) o)
  unfolding add_bin
  add_bin-IsPrintable name v o p h =
      if-AllSome IsPrintable (is_empty name) _ _ p
        (add_shown-IsPrintable name (shown J gunzip v) o p h (shown-IsShown v))

  pub data_convert-IsPrintable :
      (bs : List (Bytes × AsValue)) (o : Json)
      → All IsNamed bs
      → IsPrintable o
      → AllSome IsPrintable (data_convert_to_json_v1 J gunzip bs o)
  unfolding data_convert_to_json_v1
  data_convert-IsPrintable [] o a p = p
  data_convert-IsPrintable ((name, v) ∷ bs) o (h, a) p =
      and_then-AllSome IsPrintable IsPrintable (add_bin J gunzip (name, v) o)
        (data_convert_to_json_v1 J gunzip bs) (add_bin-IsPrintable name v o p h)
        (λ o' p'. data_convert-IsPrintable bs o' a p')

module _ (env : Env) where
  -- In every record that the cluster gives, each bin name is UTF-8.
  abbrev pub AllNamed : Type 0
  AllNamed =
      (c : Config) (k : Key) (w : env.aerospike.Cluster)
      → All (IsNamed env.jansson env.gunzip) (env.aerospike.aerospike_key_get c k w).1.bins

module _ (env : Env) (self : ℕ) (named : AllNamed env) where
  open env.jansson use {Json, json_object, IsPrintable}

  found-IsPrintable :
      (st : ℤ) (r : AsRecord) (o : AsObject) (w : env.aerospike.Cluster) (q : Option Json)
      → AllSome IsPrintable q
      → AllSome (λ g. IsPrintable g.1.bins) (found env.aerospike env.jansson env.gunzip st r o w q)
  found-IsPrintable st r o w none p = tt
  found-IsPrintable st r o w (some bins) p = p

  get-IsPrintable :
      (k : Key) (o : AsObject) (w : env.aerospike.Cluster)
      → AllSome
          (λ q. IsPrintable q.1.bins)
          (get env.aerospike env.jansson env.gunzip k (empty_got env) o w)
  unfolding get
  get-IsPrintable k o w =
      let (st, r, w') = env.aerospike.aerospike_key_get o.config (key_init env.aerospike k) w in
      if-AllSome _ o.isalive _ _
        (if-AllSome _ (eq_ℤ st env.aerospike.aerospike_ok) _ _
          (found-IsPrintable st r _ w' _ (
            data_convert-IsPrintable env.jansson env.gunzip r.bins json_object
              (named o.config (key_init env.aerospike k) w) env.jansson.json_object-IsPrintable))
          env.jansson.json_object-IsPrintable)
        env.jansson.json_object-IsPrintable

  results-IsPrintable :
      (bins root : Json)
      → IsPrintable bins
      → IsPrintable root
      → IsPrintable (results_member env bins root)
  results-IsPrintable bins root p q =
      either IsPrintable (env.jansson.json_object_size bins == 0) _ _ q (
        env.jansson.set-IsPrintable root bins (codes "results") q p
          (env.jansson.is_utf8-ascii (codes "results") refl))

  got-IsPrintable :
      (root : Json) (c : Control) (q : Outcome env.aerospike env.jansson env.gunzip)
      → IsPrintable root
      → AllSome (λ q. IsPrintable q.1.bins) q
      → AllSome (λ q. IsPrintable q.0) (got env self root c q)
  got-IsPrintable root c none p h = tt
  got-IsPrintable root c (some (st, g, o, w)) p h = results-IsPrintable g.bins root h p

  get_with-IsPrintable :
      (root : Json) (k : Key) (c : Control) (w : env.aerospike.Cluster) (o : Option AsObject)
      → IsPrintable root
      → AllSome (λ q. IsPrintable q.0) (get_with env self root k c w o)
  get_with-IsPrintable root k c w none p = p
  get_with-IsPrintable root k c w (some o) p = got-IsPrintable root c _ p (get-IsPrintable k o w)

  status-IsPrintable : (root : Json) → IsPrintable root → IsPrintable (status_members env root)
  status-IsPrintable root p =
      set-IsPrintable env.jansson env.gunzip _ (codes "proxy_status") _
        (set-IsPrintable env.jansson env.gunzip root (codes "proxy_code") _ p
          (env.jansson.is_utf8-ascii (codes "proxy_code") refl)
          (env.jansson.json_integer-IsPrintable (pos 100)))
        (env.jansson.is_utf8-ascii (codes "proxy_status") refl)
        (quoted env.jansson env.gunzip (codes "OK"))

  pub root_for-IsPrintable :
      (r : Request) (w : World env) → AllSome (λ q. IsPrintable q.0) (root_for env self r w)
  unfolding root_for members_for get_members
  root_for-IsPrintable r w =
      let (file, m) = target env r in
      let (c, v) = get_as_object env.aerospike env.shuffle self w.control w.cluster in
      if-AllSome _ (bytes_eq (env.boost.to_lower_copy file) (codes "/status")) _ _
        (status-IsPrintable json_object env.jansson.json_object-IsPrintable)
        (if-AllSome _ (bytes_eq (env.boost.to_lower_copy file) (codes "/get")) _ _
          (get_with-IsPrintable json_object (key_of env m) c v (lookup self c.objects)
            env.jansson.json_object-IsPrintable)
          env.jansson.json_object-IsPrintable)

  -- What the reply is made of has a text.
  pub took-dumps :
      (r : Request) (w w' : World env) (root : Json)
      → root_for env self r w ≡ some (root, w')
      → (text : Bytes) × (env.jansson.json_dumps compact (took env root w') ≡ some text)
  took-dumps r w w' root e =
      let p : IsPrintable root = rw e at (root_for-IsPrintable r w) in
      env.jansson.dumps-IsPrintable (took env root w') (
        set-IsPrintable env.jansson env.gunzip root (codes "took") _ p
          (env.jansson.is_utf8-ascii (codes "took") refl)
          (measured env.jansson env.gunzip (env.seconds_since w'.cluster)))

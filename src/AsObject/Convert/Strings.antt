-- ===== src/AsObject/Convert/Strings.antt =====
-- Which strings of the store `data_convert_to_json_v1` (include/as_object.hpp) shows as they are, and
-- which it takes for encoded documents.
use as_proxyd.AsObject.Convert.{
  string_value, inflated, shown, add_bin, skipped, stored, as_string_len, as_string_to_byte,
}
use as_proxyd.Aerospike.{string}
use as_proxyd.Base64.{is_base64, decode_rest, decode_loop, base64_decode, base64_encode}
use as_proxyd.Base64.RoundTrip.{IsBytes, decode-encode}
use as_proxyd.Common.{
  ℕ, Bool, true, false, not, ◌&&◌, [], ◌∷◌, Option, none, some, ◌≡◌, refl, ◌∙◌, ap, arith, ◌==◌,
  ◌++◌, if◌then◌else◌, Bytes, all, until_nul, until_nul-all, ◌⊎◌, inl, inr,
}
use as_proxyd.Jansson.{Jansson, opens}
use as_proxyd.Parser.{is_empty}

-- The text begins with two symbols of the base64 alphabet.
abbrev pub two_symbols : Bytes → Bool
two_symbols [] = false
two_symbols (c ∷ []) = false
two_symbols (c ∷ d ∷ cs) = is_base64 c && is_base64 d

decode_loop_ne : (w x : ℕ) (cs : Bytes) → is_empty (decode_loop (w ∷ x ∷ []) cs) ≡ false
unfolding decode_loop decode_rest
decode_loop_ne w x [] = refl
decode_loop_ne w x (y ∷ []) = ground arith
decode_loop_ne w x (y ∷ z ∷ cs) = ground arith

-- A text is decoded to nothing exactly if it does not begin so.
is_empty-base64_decode : (s : Bytes) → is_empty (base64_decode s) ≡ not (two_symbols s)
unfolding base64_decode decode_loop decode_rest is_base64
is_empty-base64_decode [] = refl
is_empty-base64_decode (c ∷ []) = ground arith
is_empty-base64_decode (c ∷ d ∷ cs) = ground (arith, decode_loop_ne c d cs)

until_nul-end : (s : Bytes) → until_nul (s ++ 0 ∷ []) ≡ until_nul s
unfolding until_nul
until_nul-end [] = refl
until_nul-end (c ∷ s) = ground (arith, until_nul-end s)

opens-until_nul : (t : Bytes) → opens t ≡ false → opens (until_nul t) ≡ false
unfolding until_nul
opens-until_nul [] h = refl
opens-until_nul (c ∷ t) h = ground arith

either_way {ℓ} : {T : Type ℓ} (b : Bool) (x : T) → (if b then some x else some x) ≡ some x
either_way true x = refl
either_way false x = refl

module _ (J : Jansson) (gunzip : Bytes → Option Bytes) where
  -- The two ways of a string.
  pub string_value_cases :
      (s : Bytes)
      → (two_symbols s ≡ false → string_value J gunzip s ≡ J.json_string s)
        × (two_symbols s ≡ true
            → string_value J gunzip s
              ≡ J.json_loads
                  (until_nul (inflated J gunzip (base64_decode s) (gunzip (base64_decode s)))))
  unfolding string_value
  string_value_cases s =
      (λ e. rw (is_empty-base64_decode s) (rw e), λ e. rw (is_empty-base64_decode s) (rw e))

  not_loaded : (t : Bytes) (r : Option J.Json) → J.json_loads t ≡ r → opens t ≡ false → r ≡ none
  not_loaded t none e h = refl
  not_loaded t (some v) e h = let g = J.loads-opens t v e in cc

  -- A string that holds no NUL, begins with two symbols of the base64 alphabet and decodes to bytes that
  -- are not inflated and do not begin as a JSON text does, a plain text such as a name, is lost: the
  -- object of the bins is left as it was.
  pub add_bin-lost :
      (name s : Bytes) (o : J.Json)
      → all (λ c. not (c == 0)) s ≡ true
      → two_symbols s ≡ true
      → gunzip (base64_decode s) ≡ none
      → opens (base64_decode s) ≡ false
      → add_bin J gunzip (name, string (some s)) o ≡ some o
  unfolding add_bin shown
  add_bin-lost name [] o n t g h = cc
  add_bin-lost name (c ∷ s) o n t g h =
      let l : string_value J gunzip (c ∷ s) ≡ none =
        (string_value_cases (c ∷ s)).1 t
        ∙ ap (λ d. J.json_loads (until_nul (inflated J gunzip (base64_decode (c ∷ s)) d))) g
        ∙ not_loaded (until_nul (base64_decode (c ∷ s))) _ refl
            (opens-until_nul (base64_decode (c ∷ s)) h) in
      rw (until_nul-all (c ∷ s) n) (rw l (rw (J.set_null o name) (either_way (is_empty name) o)))

  encode_shown :
      (t : Bytes) (b : Bool)
      → IsBytes t
      → is_empty t ≡ b
      → b ≡ false
      → string_value J gunzip (base64_encode t)
        ≡ J.json_loads (until_nul (inflated J gunzip t (gunzip t)))
  unfolding string_value
  encode_shown t b v e f = rw (decode-encode t v) (rw e (rw f))

  -- A document that was stored as base64, plain or deflated, is shown as the JSON that its text
  -- stands for. The text is not empty and holds no NUL.
  pub string_value-encode :
      (t text : Bytes)
      → IsBytes t
      → is_empty t ≡ false
      → all (λ c. not (c == 0)) text ≡ true
      → ((gunzip t ≡ none) × (t ≡ text)) ⊎ (gunzip t ≡ some text)
      → string_value J gunzip (base64_encode t) ≡ J.json_loads text
  string_value-encode t text v e n (inl (g, q)) =
      encode_shown t (is_empty t) v refl e
      ∙ rw g (ap J.json_loads (ap until_nul q ∙ until_nul-all text n))
  string_value-encode t text v e n (inr g) =
      encode_shown t (is_empty t) v refl e
      ∙ rw g (ap J.json_loads (rw (until_nul-all text n) (until_nul-all text n)))

  -- The test of the length and the copy, as the code has them.
  shown-string :
      (q : Option Bytes)
      → shown J gunzip (string q) ≡ (
          if as_string_len q == 0
          then skipped
          else stored (string_value J gunzip (until_nul (as_string_to_byte q))))
  unfolding shown
  shown-string none = refl
  shown-string (some []) = refl
  shown-string (some (c ∷ s)) = ground (arith, until_nul-end (c ∷ s))

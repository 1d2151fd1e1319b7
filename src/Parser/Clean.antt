-- ===== src/Parser/Clean.antt =====
-- What bytes the parser (src/request_parser.cpp) lets into the fields of a request.
use as_proxyd.Common.{
  inl, inr, Option, Option-cases, ℕ, ◌<◌, Bool, true, false, not, ◌&&◌, List, [], ◌∷◌, ◌++◌, none,
  some, ◌≡◌, refl, arith, all, all-append, All, All-append, within, all_below, all_below_sound,
  char_to_int, Bytes, to_lower, ◌==◌, ◌||◌,
}
use as_proxyd.Request.{Header, Request}
use as_proxyd.Parser.{
  State, method_start, method, uri, header_line_start, header_lws, header_name, header_value,
  Machine, accepted, rejected, indeterminate, Outcome, consume_in, consume, on_last, push_name,
  push_value, with_headers, add_name, add_value, new_header, is_ctl, not_token, continue_with,
  Parsed, parse,
}

abbrev pub token : ℕ → Bool
token c = not (not_token c)

-- A token byte that is no capital letter.
abbrev pub lower_token : ℕ → Bool
lower_token c = token c && not (within b'A' b'Z' c)

abbrev pub uri_byte : ℕ → Bool
uri_byte c = not (c == b' ') && not (is_ctl (char_to_int c))

abbrev pub value_byte : ℕ → Bool
value_byte c = not (is_ctl (char_to_int c))

abbrev pub IsCleanHeader : Header → Type 0
IsCleanHeader h = (all lower_token h.name ≡ true) × (all value_byte h.value ≡ true)

-- Token bytes in the method, lower case ones in the header names, no space in the URI, and no
-- control character, so no line break, anywhere in front of the content.
pub record IsClean (r : Request) : Type 0 where
  pub method_ok : all token r.method ≡ true
  pub uri_ok : all uri_byte r.uri ≡ true
  pub headers_ok : All IsCleanHeader r.headers

to_lower_table : all_below 128 (λ c. not_token c || lower_token (to_lower c)) ≡ true
unfolding all_below not_token to_lower
to_lower_table = refl

token-lt : (c : ℕ) → not_token c ≡ false → c < 128
unfolding not_token
token-lt c h = ground arith

to_lower-lower_token : (c : ℕ) → not_token c ≡ false → lower_token (to_lower c) ≡ true
to_lower-lower_token c h = ground (
  arith,
  all_below_sound 128 (λ x. not_token x || lower_token (to_lower x)) c to_lower_table,
  token-lt c,
)

all-concat :
    (p : ℕ → Bool) (xs : Bytes) (c : ℕ) → all p xs ≡ true → p c ≡ true → all p (xs ++ c ∷ []) ≡ true
all-concat p xs c h k = ground (arith, all-append p xs (c ∷ []))

abbrev AllClean : Option (List Header) → Type 0
AllClean none = Unit
AllClean (some hs) = All IsCleanHeader hs

module _ (f : Header → Header) (clean : (h : Header) → IsCleanHeader h → IsCleanHeader (f h)) where
  on_last-AllClean : (hs : List Header) → All IsCleanHeader hs → AllClean (on_last f hs)
  unfolding on_last
  on_last-AllClean [] a = tt
  on_last-AllClean (h ∷ []) a = (clean h a.0, tt)
  on_last-AllClean (h ∷ k ∷ hs) a = elim (Option-cases (on_last f (k ∷ hs))) [
    | inl e ↦ rw e tt
    | inr (ks, e) ↦ rw e (a.0, rw e at (on_last-AllClean (k ∷ hs) a.1))
  ]

abbrev KeepsClean : Outcome → Type 0
KeepsClean none = Unit
KeepsClean (some (t, m)) = IsClean m.request

with_headers-KeepsClean :
    (s : State) (m : Machine) (o : Option (List Header))
    → IsClean m.request
    → AllClean o
    → KeepsClean (with_headers m s o)
with_headers-KeepsClean s m none v a = tt
with_headers-KeepsClean s m (some hs) v a = record {
  method_ok = v.method_ok;
  uri_ok = v.uri_ok;
  headers_ok = a;
}

add_name-IsCleanHeader :
    (c : ℕ) → lower_token c ≡ true → (h : Header) → IsCleanHeader h → IsCleanHeader (add_name c h)
unfolding add_name
add_name-IsCleanHeader c e h v = (all-concat lower_token h.name c v.0 e, v.1)

add_value-IsCleanHeader :
    (c : ℕ) → value_byte c ≡ true → (h : Header) → IsCleanHeader h → IsCleanHeader (add_value c h)
unfolding add_value
add_value-IsCleanHeader c e h v = (v.0, all-concat value_byte h.value c v.1 e)

push_name-KeepsClean :
    (c : ℕ) (s : State) (m : Machine)
    → not_token c ≡ false
    → IsClean m.request
    → KeepsClean (push_name (to_lower c) s m)
push_name-KeepsClean c s m e v = with_headers-KeepsClean s m _ v (
    on_last-AllClean (add_name (to_lower c))
      (add_name-IsCleanHeader (to_lower c) (to_lower-lower_token c e)) m.request.headers
      v.headers_ok)

push_value-KeepsClean :
    (c : ℕ) (s : State) (m : Machine)
    → is_ctl (char_to_int c) ≡ false
    → IsClean m.request
    → KeepsClean (push_value c s m)
push_value-KeepsClean c s m e v = with_headers-KeepsClean s m _ v (
    on_last-AllClean (add_value c) (add_value-IsCleanHeader c (ground arith)) m.request.headers
      v.headers_ok)

new_header-IsClean : (m : Machine) → IsClean m.request → IsClean (new_header m).request
new_header-IsClean m v = record {
  method_ok = v.method_ok;
  uri_ok = v.uri_ok;
  headers_ok = All-append IsCleanHeader m.request.headers _ v.headers_ok ((refl, refl), tt);
}

consume_in-KeepsClean :
    (s : State) (m : Machine) (c : ℕ) → IsClean m.request → KeepsClean (consume_in s m c)
unfolding consume_in
consume_in-KeepsClean method_start m c v = ground (arith, all-concat token m.request.method c)
consume_in-KeepsClean method m c v = ground (arith, all-concat token m.request.method c)
consume_in-KeepsClean uri m c v = ground (arith, all-concat uri_byte m.request.uri c)
consume_in-KeepsClean header_line_start m c v =
    ground (arith, push_name-KeepsClean c header_name (new_header m), new_header-IsClean m)
consume_in-KeepsClean header_lws m c v = ground (arith, push_value-KeepsClean c header_value m)
consume_in-KeepsClean header_name m c v = ground (arith, push_name-KeepsClean c header_name m)
consume_in-KeepsClean header_value m c v = ground (arith, push_value-KeepsClean c header_value m)
consume_in-KeepsClean _ m c v = ground arith

abbrev pub CleanParsed : Parsed → Type 0
CleanParsed none = Unit
CleanParsed (some (t, rest, m)) = IsClean m.request

continue_with-CleanParsed :
    (o : Outcome) (rest : Bytes) (loop : Machine → Parsed)
    → KeepsClean o
    → ((m : Machine) → IsClean m.request → CleanParsed (loop m))
    → CleanParsed (continue_with o rest loop)
continue_with-CleanParsed none rest loop k ih = tt
continue_with-CleanParsed (some (indeterminate, m)) rest loop k ih = ih m k
continue_with-CleanParsed (some (accepted, m)) rest loop k ih = k
continue_with-CleanParsed (some (rejected, m)) rest loop k ih = k

-- Whatever bytes arrive, and in whatever state, the request that `parse` has built stays clean:
-- no control character gets into the method, the URI, a header name or a header value, no space
-- into the URI, and header names hold lower-case token bytes only.
pub parse-CleanParsed : (m : Machine) (xs : Bytes) → IsClean m.request → CleanParsed (parse m xs)
unfolding parse consume
parse-CleanParsed m [] v = v
parse-CleanParsed m (x ∷ xs) v =
    continue_with-CleanParsed (consume m x) xs (λ m'. parse m' xs)
      (consume_in-KeepsClean m.state m x v) (λ m' v'. parse-CleanParsed m' xs v')

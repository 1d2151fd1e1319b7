-- ===== src/Parser/Safety.antt =====
-- The invariant of the parser's state, and the one step that is undefined behaviour.
use as_proxyd.Common.{
  ℕ, ◌+◌, ◌≤◌, ◌<◌, Bool, true, false, ◌*◌, ◌^◌, ◌==◌, List, [], ◌∷◌, ◌++◌, Option, none, some, ◌≡◌,
  refl, ◌⊎◌, inl, inr, arith, ltb_ℤ, char_to_int, if◌then◌else◌, pos, length, length-append, Bytes,
  to_lower,
}
use as_proxyd.Request.{Header, Request, get_header}
use as_proxyd.Parser.{
  State, method_start, http_version_major_start, http_version_major, http_version_minor_start,
  http_version_minor, is_digit, has_room, reject, more, go, expecting_newline_1, shift_in,
  header_line_start, header_lws, header_name, space_before_header_value, header_value,
  expecting_newline_2, expecting_newline_3, body, Machine, accepted, rejected, indeterminate,
  Outcome, Parsed, reset, consume_in, consume, on_last, with_headers, add_name, add_value,
  new_header, max_content, content_length, is_empty, continue_with, parse,
}

-- States in which a header has been begun.
abbrev in_header : State → Bool
in_header header_lws = true
in_header header_name = true
in_header space_before_header_value = true
in_header header_value = true
in_header expecting_newline_2 = true
in_header _ = false

abbrev in_body : State → Bool
in_body body = true
in_body _ = false

-- A header has been begun where the code reads `headers.back()`; in the body the bytes read and
-- those to come add up to the content length; before it nothing has been read.
pub record Inv (m : Machine) : Type 0 where
  pub begun : in_header m.state ≡ true → is_empty m.request.headers ≡ false
  pub bounded :
      in_body m.state ≡ true
      → (0 < m.body_bytes) × (length m.request.content + m.body_bytes ≤ max_content)
  pub counted :
      in_body m.state ≡ true
      → content_length m.request ≡ pos (length m.request.content + m.body_bytes)
  pub unread : in_body m.state ≡ false → m.request.content ≡ []

-- The content is as long as the content-length header says, or empty if that is not positive.
abbrev pub IsComplete : Request → Type 0
IsComplete r =
    ((ltb_ℤ 0 (content_length r) ≡ false) × (r.content ≡ []))
    ⊎ ((content_length r ≡ pos (length r.content)) × (length r.content ≤ max_content))

-- The number that the state reads.
abbrev pub version_of : State → Request → Option ℕ
version_of http_version_major_start r = some r.http_version_major
version_of http_version_major r = some r.http_version_major
version_of http_version_minor_start r = some r.http_version_minor
version_of http_version_minor r = some r.http_version_minor
version_of _ r = none

-- A digit of a version that an `int` has no room for.
abbrev pub Overflows : State → Request → ℕ → Type 0
Overflows s r c =
    (v : ℕ) × (version_of s r ≡ some v) × (is_digit (char_to_int c) ≡ true) × (2 ^ 31 ≤ v * 10 + c)

-- The parser gets to such a digit.
abbrev pub OverflowsIn : Machine → Bytes → Type 0
OverflowsIn m [] = ⊥
OverflowsIn m (c ∷ cs) =
    Overflows m.state m.request c
    ⊎ ((m' : Machine) × (consume m c ≡ some (indeterminate, m')) × OverflowsIn m' cs)

abbrev Keeps : Type 0 → Outcome → Type 0
Keeps P none = P
Keeps P (some (indeterminate, m)) = Inv m
Keeps P (some (accepted, m)) = IsComplete m.request
Keeps P (some (rejected, m)) = Unit

on_last-some :
    (f : Header → Header) (hs : List Header)
    → is_empty hs ≡ false
    → (ks : List Header) × (on_last f hs ≡ some ks) × (is_empty ks ≡ false)
unfolding on_last
on_last-some f [] h = cc
on_last-some f (x ∷ []) h = (f x ∷ [], refl, refl)
on_last-some f (x ∷ y ∷ hs) h =
    let (ks, e, _) = on_last-some f (y ∷ hs) refl in (x ∷ ks, rw e refl, refl)

is_empty-concat : (hs : List Header) (h : Header) → is_empty (hs ++ h ∷ []) ≡ false
is_empty-concat [] h = refl
is_empty-concat (x ∷ hs) h = refl

with_headers-Keeps :
    (P : Type 0) (f : Header → Header) (s : State) (m : Machine)
    → in_body s ≡ false
    → is_empty m.request.headers ≡ false
    → m.request.content ≡ []
    → Keeps P (with_headers m s (on_last f m.request.headers))
with_headers-Keeps P f s m out some_header none_read =
    let (ks, e, k) = on_last-some f m.request.headers some_header in
    rw e (record { begun = λ _. k; bounded = λ b. cc; counted = λ b. cc; unread = λ _. none_read })

number-Keeps :
    (P : Type 0) (n : Machine) (v c : ℕ)
    → Inv n
    → (2 ^ 31 ≤ v * 10 + c → P)
    → Keeps P (if has_room v c then more n else none)
number-Keeps P n v c j k =
    elim (has_room v c) as (λ b. (has_room v c ≡ b) → Keeps P (if b then more n else none)) [
      | true ↦ λ g. j
      | false ↦ λ g. k (ground arith)
    ]
      refl

if-Keeps :
    (P : Type 0) (b : Bool) (x y : Outcome) → Keeps P x → Keeps P y → Keeps P (if b then x else y)
if-Keeps P true x y i j = i
if-Keeps P false x y i j = j

-- A digit of the number `v`.
digit-Keeps :
    (P : Type 0) (m n : Machine) (v c : ℕ)
    → Inv m
    → Inv n
    → ((is_digit (char_to_int c) ≡ true) × (2 ^ 31 ≤ v * 10 + c) → P)
    → Keeps P
        (if is_digit (char_to_int c) then (if has_room v c then more n else none) else reject m)
digit-Keeps P m n v c i j k =
    elim (is_digit (char_to_int c))
        as (λ b.
          (is_digit (char_to_int c) ≡ b)
          → Keeps P (if b then (if has_room v c then more n else none) else reject m)) [
            | true ↦ λ d. number-Keeps P n v c j (λ g. k (d, g))
            | false ↦ λ d. tt
          ]
      refl

consume_in-Keeps :
    (s : State) (m : Machine) (c : ℕ)
    → m.state ≡ s
    → Inv m
    → Keeps (Overflows s m.request c) (consume_in s m c)
unfolding consume_in get_header
consume_in-Keeps method_start m c e v = ground arith
consume_in-Keeps header_line_start m c e v = ground (
  arith,
  with_headers-Keeps (Overflows header_line_start m.request c) (add_name (to_lower c)) header_name
      (new_header m),
  is_empty-concat m.request.headers (record { name = []; value = [] }),
)
consume_in-Keeps http_version_major_start m c e v =
    digit-Keeps _ m
      (record m {
        state = http_version_major;
        request = record m.request { http_version_major = shift_in m.request.http_version_major c };
      })
      m.request.http_version_major c v (ground arith) (λ (d, g). (_, refl, d, g))
consume_in-Keeps http_version_major m c e v =
    if-Keeps _ (c == b'.') (go http_version_minor_start m) _ (ground arith) (
      digit-Keeps _ m
        (record m {
          state = http_version_major;
          request = record m.request {
            http_version_major = shift_in m.request.http_version_major c;
          };
        })
        m.request.http_version_major c v (ground arith) (λ (d, g). (_, refl, d, g)))
consume_in-Keeps http_version_minor_start m c e v =
    digit-Keeps _ m
      (record m {
        state = http_version_minor;
        request = record m.request { http_version_minor = shift_in m.request.http_version_minor c };
      })
      m.request.http_version_minor c v (ground arith) (λ (d, g). (_, refl, d, g))
consume_in-Keeps http_version_minor m c e v =
    if-Keeps _ (c == b'\r') (go expecting_newline_1 m) _ (ground arith) (
      digit-Keeps _ m
        (record m {
          state = http_version_minor;
          request = record m.request {
            http_version_minor = shift_in m.request.http_version_minor c;
          };
        })
        m.request.http_version_minor c v (ground arith) (λ (d, g). (_, refl, d, g)))
consume_in-Keeps header_lws m c e v =
    ground
      (arith, with_headers-Keeps (Overflows header_lws m.request c) (add_value c) header_value m)
consume_in-Keeps header_name m c e v = ground (
  arith,
  with_headers-Keeps (Overflows header_name m.request c) (add_name (to_lower c)) header_name m,
)
consume_in-Keeps header_value m c e v =
    ground
      (arith, with_headers-Keeps (Overflows header_value m.request c) (add_value c) header_value m)
consume_in-Keeps expecting_newline_3 m c e v = ground arith
consume_in-Keeps body m c e v = ground (arith, length-append m.request.content (c ∷ []))
consume_in-Keeps _ m c e v = ground arith

-- No byte, in no state that the invariant allows, makes `consume` undefined, but for a digit of a
-- version that an `int` has no room for: it returns, keeps the
-- invariant while the request is incomplete, and accepts complete requests only.
consume-Keeps : (m : Machine) (c : ℕ) → Inv m → Keeps (Overflows m.state m.request c) (consume m c)
unfolding consume
consume-Keeps m c v = consume_in-Keeps m.state m c refl v

-- What the invariant says of the result of `parse`.
abbrev pub KeepsParsed : Machine → Bytes → Parsed → Type 0
KeepsParsed m xs none = OverflowsIn m xs
KeepsParsed m xs (some (indeterminate, rest, m')) = Inv m' × (rest ≡ [])
KeepsParsed m xs (some (accepted, rest, m')) = IsComplete m'.request
KeepsParsed m xs (some (rejected, rest, m')) = Unit

KeepsParsed-more :
    (m m' : Machine) (x : ℕ) (xs : Bytes) (r : Parsed)
    → consume m x ≡ some (indeterminate, m')
    → KeepsParsed m' xs r
    → KeepsParsed m (x ∷ xs) r
KeepsParsed-more m m' x xs none e k = inr (m', e, k)
KeepsParsed-more m m' x xs (some (indeterminate, rest, n)) e k = k
KeepsParsed-more m m' x xs (some (accepted, rest, n)) e k = k
KeepsParsed-more m m' x xs (some (rejected, rest, n)) e k = k

continue_with-Keeps :
    (m : Machine) (x : ℕ) (xs : Bytes) (o : Outcome)
    → consume m x ≡ o
    → Keeps (Overflows m.state m.request x) o
    → ((m' : Machine) → Inv m' → KeepsParsed m' xs (parse m' xs))
    → KeepsParsed m (x ∷ xs) (continue_with o xs (λ m'. parse m' xs))
continue_with-Keeps m x xs none e k ih = inl k
continue_with-Keeps m x xs (some (indeterminate, m')) e k ih =
    KeepsParsed-more m m' x xs _ e (ih m' k)
continue_with-Keeps m x xs (some (accepted, m')) e k ih = k
continue_with-Keeps m x xs (some (rejected, m')) e k ih = k

pub parse-KeepsParsed : (m : Machine) (xs : Bytes) → Inv m → KeepsParsed m xs (parse m xs)
unfolding parse
parse-KeepsParsed m [] v = (v, refl)
parse-KeepsParsed m (x ∷ xs) v =
    continue_with-Keeps m x xs (consume m x) refl (consume-Keeps m x v)
      (λ m' v'. parse-KeepsParsed m' xs v')

-- After `reset` on a request with no content the invariant holds: before the first request and
-- between two requests of a connection.
pub reset-Inv : (m : Machine) → m.request.content ≡ [] → Inv (reset m)
unfolding reset
reset-Inv m e = record { begun = λ b. cc; bounded = λ b. cc; counted = λ b. cc; unread = λ b. e }

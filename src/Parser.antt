-- ===== src/Parser.antt =====
-- src/request_parser.cpp and include/request_parser.hpp: the incremental HTTP request parser.
mod Chars
mod Atoi
pub mod Chunks
pub mod Safety
pub mod Clean
pub mod Wire
pub mod RoundTrip
mod Tests
unfoldable pub use Chars.{is_char, is_ctl, is_tspecial, is_digit, not_token}
unfoldable pub use Atoi.{atoi, digits_value}
use as_proxyd.Common.{
  ℕ, zero, suc, ◌+◌, ◌-◌, ◌*◌, ◌%◌, ◌^◌, Bool, true, false, not, ◌&&◌, ◌||◌, List, [], ◌∷◌, ◌++◌,
  Option, none, some, ℤ, pos, negsuc, ltb, if◌then◌else◌, ◌==◌, char_to_int, Bytes, codes, to_lower,
}
use as_proxyd.Request.{Header, Request, get_header}

-- `enum state`.
pub data State : Type 0 where
  method_start method uri : State
  http_version_h http_version_t_1 http_version_t_2 http_version_p http_version_slash : State
  http_version_major_start http_version_major : State
  http_version_minor_start http_version_minor : State
  expecting_newline_1 header_line_start header_lws header_name : State
  space_before_header_value header_value : State
  expecting_newline_2 expecting_newline_3 body : State

-- `boost::tribool`.
pub data Tribool : Type 0 where
  accepted rejected indeterminate : Tribool

-- The parser's two fields beside the request that it fills. `body_bytes` is an `unsigned int`.
pub record Machine : Type 0 where
  pub state : State
  pub body_bytes : ℕ
  pub request : Request

-- What a step returns; `none` is undefined behaviour, `headers.back()` of no headers, or a version that
-- an `int` has no room for.
abbrev pub Outcome : Type 0
Outcome = Option (Tribool × Machine)

abbrev pub reject : Machine → Outcome
reject m = some (rejected, m)

abbrev pub more : Machine → Outcome
more m = some (indeterminate, m)

abbrev pub go : State → Machine → Outcome
go s m = more (record m { state = s })

-- `reset`.
unfoldable pub reset : Machine → Machine
reset m = record m { state = method_start }

abbrev push_method : ℕ → Request → Request
push_method c r = record r { method = r.method ++ c ∷ [] }

abbrev push_uri : ℕ → Request → Request
push_uri c r = record r { uri = r.uri ++ c ∷ [] }

-- `headers.back()` put through `f`.
unfoldable pub on_last : (Header → Header) → List Header → Option (List Header)
on_last f [] = none
on_last f (h ∷ []) = some (f h ∷ [])
on_last f (h ∷ k ∷ hs) = elim (on_last f (k ∷ hs)) [ none ↦ none | some r ↦ some (h ∷ r) ]

abbrev pub with_headers : Machine → State → Option (List Header) → Outcome
with_headers m s none = none
with_headers m s (some hs) =
    some (indeterminate, record m { state = s; request = record m.request { headers = hs } })

unfoldable pub add_name : ℕ → Header → Header
add_name c h = record h { name = h.name ++ c ∷ [] }

unfoldable pub add_value : ℕ → Header → Header
add_value c h = record h { value = h.value ++ c ∷ [] }

-- `headers.back().name.push_back(c)`, then on in state `s`.
abbrev pub push_name : ℕ → State → Machine → Outcome
push_name c s m = with_headers m s (on_last (add_name c) m.request.headers)

abbrev pub push_value : ℕ → State → Machine → Outcome
push_value c s m = with_headers m s (on_last (add_value c) m.request.headers)

-- `headers.push_back(header())`.
abbrev pub new_header : Machine → Machine
new_header m = record m {
  request = record m.request {
    headers = m.request.headers ++ record { name = []; value = [] } ∷ [];
  };
}

-- `version * 10 + input - '0'`. To leave the range of an `int` is undefined.
unfoldable pub shift_in : ℕ → ℕ → ℕ
shift_in v c = v * 10 + c - 48

abbrev pub has_room : ℕ → ℕ → Bool
has_room v c = ltb (v * 10 + c) (2 ^ 31)

on_method_start : Machine → ℕ → Outcome
on_method_start m c =
    if not_token c
    then reject m
    else more (record m { state = method; request = push_method c m.request })

on_method : Machine → ℕ → Outcome
on_method m c =
    if c == b' '
    then go uri m
    else if not_token c
    then reject m
    else more (record m { request = push_method c m.request })

on_uri : Machine → ℕ → Outcome
on_uri m c =
    if c == b' '
    then go http_version_h m
    else if is_ctl (char_to_int c)
    then reject m
    else more (record m { request = push_uri c m.request })

-- The states that wait for one given byte and store nothing.
expect : ℕ → State → Machine → ℕ → Outcome
expect b s m c = if c == b then go s m else reject m

on_http_version_slash : Machine → ℕ → Outcome
on_http_version_slash m c =
    if c == b'/'
    then more (record m {
      state = http_version_major_start;
      request = record m.request { http_version_major = 0; http_version_minor = 0 };
    })
    else reject m

push_major : State → Machine → ℕ → Outcome
push_major s m c =
    if has_room m.request.http_version_major c
    then more (record m {
      state = s;
      request = record m.request { http_version_major = shift_in m.request.http_version_major c };
    })
    else none

push_minor : State → Machine → ℕ → Outcome
push_minor s m c =
    if has_room m.request.http_version_minor c
    then more (record m {
      state = s;
      request = record m.request { http_version_minor = shift_in m.request.http_version_minor c };
    })
    else none

on_http_version_major_start : Machine → ℕ → Outcome
unfolding push_major
on_http_version_major_start m c =
    if is_digit (char_to_int c) then push_major http_version_major m c else reject m

on_http_version_major : Machine → ℕ → Outcome
unfolding push_major
on_http_version_major m c =
    if c == b'.'
    then go http_version_minor_start m
    else if is_digit (char_to_int c)
    then push_major http_version_major m c
    else reject m

on_http_version_minor_start : Machine → ℕ → Outcome
unfolding push_minor
on_http_version_minor_start m c =
    if is_digit (char_to_int c) then push_minor http_version_minor m c else reject m

on_http_version_minor : Machine → ℕ → Outcome
unfolding push_minor
on_http_version_minor m c =
    if c == b'\r'
    then go expecting_newline_1 m
    else if is_digit (char_to_int c)
    then push_minor http_version_minor m c
    else reject m

-- `headers.empty()`.
abbrev pub is_empty {ℓ} : {A : Type ℓ} → List A → Bool
is_empty [] = true
is_empty (x ∷ xs) = false

on_header_line_start : Machine → ℕ → Outcome
on_header_line_start m c =
    if c == b'\r'
    then go expecting_newline_3 m
    else if not (is_empty m.request.headers) && (c == b' ' || c == b'\t')
    then go header_lws m
    else if not_token c
    then reject m
    else push_name (to_lower c) header_name (new_header m)

on_header_lws : Machine → ℕ → Outcome
on_header_lws m c =
    if c == b'\r'
    then go expecting_newline_2 m
    else if c == b' ' || c == b'\t'
    then more m
    else if is_ctl (char_to_int c)
    then reject m
    else push_value c header_value m

on_header_name : Machine → ℕ → Outcome
on_header_name m c =
    if c == b':'
    then go space_before_header_value m
    else if not_token c
    then reject m
    else push_name (to_lower c) header_name m

on_header_value : Machine → ℕ → Outcome
on_header_value m c =
    if c == b'\r'
    then go expecting_newline_2 m
    else if is_ctl (char_to_int c)
    then reject m
    else push_value c header_value m

abbrev pub max_content : ℕ
max_content = 16 * 1024 * 1024

-- `if (clen > 0)` and what it guards; otherwise the request is complete.
start_body : Machine → ℤ → Outcome
start_body m (negsuc n) = some (accepted, m)
start_body m (pos n) =
    if ltb 0 n
    then (if ltb max_content n then reject m else more (record m { body_bytes = n; state = body }))
    else some (accepted, m)

abbrev pub content_length : Request → ℤ
content_length r = atoi (get_header r (codes "content-length"))

on_expecting_newline_3 : Machine → ℕ → Outcome
unfolding start_body
on_expecting_newline_3 m c =
    if c == b'\n' then start_body m (content_length m.request) else reject m

on_body : Machine → ℕ → Outcome
on_body m c =
    let left = (m.body_bytes + (2 ^ 32 - 1)) % 2 ^ 32 in
    let m' = record m {
      body_bytes = left;
      request = record m.request { content = m.request.content ++ c ∷ [] };
    } in
    if left == 0 then some (accepted, m') else more m'

-- The `switch` of `consume`.
unfoldable pub consume_in : State → Machine → ℕ → Outcome
unfolding on_method_start on_method on_uri expect on_http_version_slash on_http_version_major_start
    on_http_version_major on_http_version_minor_start on_http_version_minor on_header_line_start
    on_header_lws on_header_name on_header_value on_expecting_newline_3 on_body
consume_in method_start = on_method_start
consume_in method = on_method
consume_in uri = on_uri
consume_in http_version_h = expect b'H' http_version_t_1
consume_in http_version_t_1 = expect b'T' http_version_t_2
consume_in http_version_t_2 = expect b'T' http_version_p
consume_in http_version_p = expect b'P' http_version_slash
consume_in http_version_slash = on_http_version_slash
consume_in http_version_major_start = on_http_version_major_start
consume_in http_version_major = on_http_version_major
consume_in http_version_minor_start = on_http_version_minor_start
consume_in http_version_minor = on_http_version_minor
consume_in expecting_newline_1 = expect b'\n' header_line_start
consume_in header_line_start = on_header_line_start
consume_in header_lws = on_header_lws
consume_in header_name = on_header_name
consume_in space_before_header_value = expect b' ' header_value
consume_in header_value = on_header_value
consume_in expecting_newline_2 = expect b'\n' header_line_start
consume_in expecting_newline_3 = on_expecting_newline_3
consume_in body = on_body

unfoldable pub consume : Machine → ℕ → Outcome
unfolding consume_in
consume m c = consume_in m.state m c

-- What `parse` returns: the result, the input that it left and the parser.
abbrev pub Parsed : Type 0
Parsed = Option (Tribool × Bytes × Machine)

-- The end of a round of the loop in `parse`, on the rounds that would follow.
abbrev pub continue_with : Outcome → Bytes → (Machine → Parsed) → Parsed
continue_with none rest loop = none
continue_with (some (indeterminate, m)) rest loop = loop m
continue_with (some (accepted, m)) rest loop = some (accepted, rest, m)
continue_with (some (rejected, m)) rest loop = some (rejected, rest, m)

unfoldable pub parse : Machine → Bytes → Parsed
parse m [] = some (indeterminate, [], m)
parse m (c ∷ cs) = continue_with (consume m c) cs (λ m'. parse m' cs)

-- ===== src/Reply/Wire.antt =====
-- What a client makes of the buffers of src/reply.cpp: a reader of HTTP replies, and that it gets
-- back the status, the headers and the content.
use as_proxyd.Common.{
  ℕ, zero, suc, ◌+◌, ◌-◌, ◌*◌, ◌<◌, ◌≡◌, ◌≢◌, refl, ◌∙◌, arith, Bool, true, not, ◌&&◌, List, [],
  ◌∷◌, ◌++◌, Option, none, some, all, All, append_assoc, append-nil, length, length-append, Bytes,
  ◌==◌, if◌then◌else◌,
}
use as_proxyd.Request.{Header}
use as_proxyd.Reply.{Status, status_value, to_buffer, Reply, header_buffers, to_buffers, crlf, ok}

-- `async_write` sends the buffers one after the other.
unfoldable pub send : List Bytes → Bytes
send [] = []
send (b ∷ bs) = b ++ send bs

-- The text up to the first line break, and what follows it.
pub read_line : Bytes → Option (Bytes × Bytes)
read_line [] = none
read_line (c ∷ []) = none
read_line (c ∷ d ∷ cs) =
    if c == b'\r' && d == b'\n'
    then some ([], cs)
    else elim (read_line (d ∷ cs)) [ none ↦ none | some (l, r) ↦ some (c ∷ l, r) ]

-- "HTTP/1.1 200 OK": the number in columns 10 to 12.
pub read_status : Bytes → Option ℕ
read_status (a0 ∷ a1 ∷ a2 ∷ a3 ∷ a4 ∷ a5 ∷ a6 ∷ a7 ∷ a8 ∷ x ∷ y ∷ z ∷ _) =
    some ((x - 48) * 100 + (y - 48) * 10 + (z - 48))
read_status _ = none

-- "name: value".
pub read_header : Bytes → Option Header
read_header [] = none
read_header (c ∷ []) = none
read_header (c ∷ d ∷ cs) =
    if c == b':'
    then (if d == b' ' then some (record { name = []; value = cs }) else none)
    else elim (read_header (d ∷ cs)) [
      | none ↦ none
      | some h ↦ some (record h { name = c ∷ h.name })
    ]

-- The header lines up to the empty one, and what follows.
pub read_headers : ℕ → Bytes → Option (List Header × Bytes)
read_headers zero bs = none
read_headers (suc fuel) bs = elim (read_line bs) [
  | none ↦ none
  | some (l, rest) ↦ elim l [
    | [] ↦ some ([], rest)
    | c ∷ cs ↦ elim (read_header (c ∷ cs)) [
      | none ↦ none
      | some h ↦ elim (read_headers fuel rest) [
        | none ↦ none
        | some (hs, content) ↦ some (h ∷ hs, content)
      ]
    ]
  ]
]

abbrev no_cr : ℕ → Bool
no_cr c = not (c == b'\r')

abbrev no_colon : ℕ → Bool
no_colon c = not (c == b':')

-- A header that its line spells: no line break, and no colon in the name.
abbrev pub IsSendable : Header → Type 0
IsSendable h = (all no_cr h.name ≡ true) × (all no_colon h.name ≡ true) × (all no_cr h.value ≡ true)

read_line_lem :
    (l rest : Bytes) → all no_cr l ≡ true → read_line (l ++ (b'\r' ∷ b'\n' ∷ rest)) ≡ some (l, rest)
unfolding read_line
read_line_lem [] rest h = refl
read_line_lem (c ∷ []) rest h = ground arith
read_line_lem (c ∷ d ∷ cs) rest h = ground (arith, read_line_lem (d ∷ cs) rest)

read_header_lem :
    (n v : Bytes)
    → all no_colon n ≡ true
    → read_header (n ++ (b':' ∷ b' ' ∷ v)) ≡ some (record { name = n; value = v })
unfolding read_header
read_header_lem [] v h = refl
read_header_lem (c ∷ []) v h = ground arith
read_header_lem (c ∷ d ∷ cs) v h = ground (arith, read_header_lem (d ∷ cs) v)

-- The text of the status line, without its line break.
pub status_text : Status → Bytes
unfolding read_line to_buffer
status_text s = elim (read_line (to_buffer s)) [ none ↦ [] | some (l, rest) ↦ l ]

read_line-to_buffer :
    (s : Status) (rest : Bytes) → read_line (to_buffer s ++ rest) ≡ some (status_text s, rest)
unfolding read_line to_buffer status_text
read_line-to_buffer ok rest = refl
read_line-to_buffer _ rest = refl

read_status-status_text : (s : Status) → read_status (status_text s) ≡ some (status_value s)
unfolding read_status status_text status_value
read_status-status_text ok = refl
read_status-status_text _ = refl

not-read_header-nil : {h : Header} → read_header [] ≢ some h
unfolding read_header
not-read_header-nil e = cc

read_headers-cons :
    (fuel : ℕ) (l bs rest : Bytes) (h : Header)
    → read_line bs ≡ some (l, rest)
    → read_header l ≡ some h
    → read_headers (suc fuel) bs ≡ (elim (read_headers fuel rest) [
      | none ↦ none
      | some (hs, content) ↦ some (h ∷ hs, content)
    ])
unfolding read_headers
read_headers-cons fuel [] bs rest h e k = absurd (not-read_header-nil k)
read_headers-cons fuel (c ∷ cs) bs rest h e k = rw (e, read_headers) (rw k)

abbrev header_line : Header → Bytes
header_line h = h.name ++ (b':' ∷ b' ' ∷ h.value)

header_line-no_cr :
    (n v : Bytes)
    → all no_cr n ≡ true
    → all no_cr v ≡ true
    → all no_cr (n ++ (b':' ∷ b' ' ∷ v)) ≡ true
header_line-no_cr [] v h k = k
header_line-no_cr (c ∷ n) v h k = ground (arith, header_line-no_cr n v)

-- What is sent behind the status line.
abbrev tail_buffers : List Header → Bytes → List Bytes
tail_buffers hs content = header_buffers hs ++ (crlf ∷ content ∷ [])

read_headers-send :
    (hs : List Header) (content : Bytes) (fuel : ℕ)
    → All IsSendable hs
    → length hs < fuel
    → read_headers fuel (send (tail_buffers hs content)) ≡ some (hs, content)
unfolding send header_buffers
read_headers-send hs content zero a h = absurd (omega arith)
read_headers-send [] content (suc fuel) a h = unfold read_headers read_line in rw append-nil
read_headers-send (h ∷ hs) content (suc fuel) ((n, c, v), a) k =
    let rest = send (tail_buffers hs content) in
    read_headers-cons fuel (header_line h) _ rest h
      (rw (← append_assoc h.name (b':' ∷ b' ' ∷ h.value) (b'\r' ∷ b'\n' ∷ rest))
        (read_line_lem (header_line h) rest (header_line-no_cr h.name h.value n v)))
      (read_header_lem h.name h.value c)
    ∙ rw (read_headers-send hs content fuel a (omega arith))

-- Each header takes four bytes at least, so the length of the text is fuel enough.
length-tail_buffers :
    (hs : List Header) (content : Bytes) → length hs < length (send (tail_buffers hs content))
unfolding send header_buffers
length-tail_buffers [] content = omega arith
length-tail_buffers (h ∷ hs) content = omega (
  arith,
  length-tail_buffers hs content,
  length-append h.name
      (b':' ∷ b' ' ∷ (h.value ++ (b'\r' ∷ b'\n' ∷ send (tail_buffers hs content)))),
  length-append h.value (b'\r' ∷ b'\n' ∷ send (tail_buffers hs content)),
)

-- A client's view of a reply: status, headers and content.
pub read_reply : Bytes → Option (ℕ × List Header × Bytes)
read_reply bs = elim (read_line bs) [
  | none ↦ none
  | some (l, rest) ↦ elim (read_status l) [
    | none ↦ none
    | some n ↦ elim (read_headers (length rest) rest) [
      | none ↦ none
      | some (hs, content) ↦ some (n, hs, content)
    ]
  ]
]

-- A reply whose headers hold no line break, and no colon in a name, is read back by the client as
-- it was: the number of its status, its headers in order and its content, whatever that holds.
pub read_reply-to_buffers :
    (r : Reply)
    → All IsSendable r.headers
    → read_reply (send (to_buffers r)) ≡ some (status_value r.status, r.headers, r.content)
unfolding read_reply to_buffers send
read_reply-to_buffers r a =
    let rest = send (tail_buffers r.headers r.content) in
    rw (read_line-to_buffer r.status rest, read_reply)
      (rw (read_status-status_text r.status) (
        rw (
          read_headers-send r.headers r.content (length rest) a
            (length-tail_buffers r.headers r.content))))

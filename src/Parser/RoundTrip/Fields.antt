-- ===== src/Parser/RoundTrip/Fields.antt =====
-- The method, the URI and the headers.
use as_proxyd.Common.{
  ℕ, ◌≡◌, refl, ◌∙◌, arith, Bool, true, false, List, [], ◌∷◌, ◌++◌, map, some, append_assoc,
  append-nil, all, All, Bool-cases, inl, inr, ◌==◌, ==_iff, char_to_int, Bytes, to_lower,
}
use as_proxyd.Request.{Header, Request}
use as_proxyd.Parser.{
  State, method_start, method, uri, http_version_h, header_line_start, header_name,
  space_before_header_value, header_value, expecting_newline_2, Machine, more, consume, parse,
  on_last, add_name, add_value, is_ctl, not_token, is_empty,
}
use as_proxyd.Parser.Clean.{token, uri_byte, value_byte}
use as_proxyd.Parser.Wire.{print_header, print_headers, lower_name, IsWireHeader}

abbrev pub at : State → ℕ → Request → Machine
at s b r = record { state = s; body_bytes = b; request = r }

pub parse-more :
    (m : Machine) (c : ℕ) (cs : Bytes) {n : Machine}
    → consume m c ≡ more n
    → parse m (c ∷ cs) ≡ parse n cs
unfolding parse
parse-more m c cs e = rw (e, parse)

-- A byte that only changes the state.
pub move :
    (s t : State) (c : ℕ) (rest : Bytes) (b : ℕ) (r : Request)
    → consume (at s b r) c ≡ more (at t b r)
    → parse (at s b r) (c ∷ rest) ≡ parse (at t b r) rest
move s t c rest b r e = parse-more (at s b r) c rest e

-- A byte that passes a test is not one that fails it.
pub ne_of_test : (p : ℕ → Bool) (c d : ℕ) → p c ≡ false → p d ≡ true → (c == d) ≡ false
ne_of_test p c d h k = elim (Bool-cases (c == d)) [
  | inl e ↦ cc ((==_iff c d).0 e, h, k)
  | inr e ↦ e
]

is_ctl_of_token : (c : ℕ) → not_token c ≡ false → is_ctl (char_to_int c) ≡ false
unfolding not_token
is_ctl_of_token c h = ground arith

-- A token byte is none of the separators.
token_ne : (c d : ℕ) → not_token c ≡ false → not_token d ≡ true → (c == d) ≡ false
token_ne = ne_of_test not_token

ctl_ne :
    (c d : ℕ) → is_ctl (char_to_int c) ≡ false → is_ctl (char_to_int d) ≡ true → (c == d) ≡ false
ctl_ne = ne_of_test (λ c. is_ctl (char_to_int c))

not_token_space : not_token b' ' ≡ true
unfolding not_token
not_token_space = refl

not_token_tab : not_token b'\t' ≡ true
unfolding not_token
not_token_tab = refl

not_token_cr : not_token b'\r' ≡ true
unfolding not_token
not_token_cr = refl

not_token_colon : not_token b':' ≡ true
unfolding not_token
not_token_colon = refl

is_ctl_cr : is_ctl (char_to_int b'\r') ≡ true
unfolding is_ctl
is_ctl_cr = refl

module _ (b : ℕ) (r : Request) where
  consume-method_start :
      (c : ℕ)
      → not_token c ≡ false
      → consume (at method_start b r) c
        ≡ more (at method b (record r { method = r.method ++ c ∷ [] }))
  unfolding consume
  consume-method_start c h = ground arith

  consume-method :
      (c : ℕ)
      → not_token c ≡ false
      → consume (at method b r) c ≡ more (at method b (record r { method = r.method ++ c ∷ [] }))
  unfolding consume
  consume-method c h = ground (arith, token_ne c b' ', not_token_space)

  consume-uri :
      (c : ℕ)
      → uri_byte c ≡ true
      → consume (at uri b r) c ≡ more (at uri b (record r { uri = r.uri ++ c ∷ [] }))
  unfolding consume
  consume-uri c h = ground arith

run-method :
    (cs rest : Bytes) (b : ℕ) (r : Request)
    → all token cs ≡ true
    → parse (at method b r) (cs ++ (b' ' ∷ rest))
      ≡ parse (at uri b (record r { method = r.method ++ cs })) rest
run-method [] rest b r h = rw append-nil (move method uri b' ' rest b r (unfold consume in refl))
run-method (c ∷ cs) rest b r h =
    parse-more _ c (cs ++ (b' ' ∷ rest)) (consume-method b r c (ground arith))
    ∙ run-method cs rest b (record r { method = r.method ++ c ∷ [] }) (ground arith)
    ∙ rw append_assoc

-- Behind the method: to the blank behind the URI.
pub run-uri :
    (cs rest : Bytes) (b : ℕ) (r : Request)
    → all uri_byte cs ≡ true
    → parse (at uri b r) (cs ++ (b' ' ∷ rest))
      ≡ parse (at http_version_h b (record r { uri = r.uri ++ cs })) rest
run-uri [] rest b r h =
    rw append-nil (move uri http_version_h b' ' rest b r (unfold consume in refl))
run-uri (c ∷ cs) rest b r h =
    parse-more _ c (cs ++ (b' ' ∷ rest)) (consume-uri b r c (ground arith))
    ∙ run-uri cs rest b (record r { uri = r.uri ++ c ∷ [] }) (ground arith)
    ∙ rw append_assoc

-- From the start of a message to the blank behind its method.
pub run_method :
    (cs rest : Bytes) (b : ℕ) (r : Request)
    → is_empty cs ≡ false
    → all token cs ≡ true
    → parse (at method_start b r) (cs ++ (b' ' ∷ rest))
      ≡ parse (at uri b (record r { method = r.method ++ cs })) rest
run_method [] rest b r ne h = cc
run_method (c ∷ cs) rest b r ne h =
    parse-more _ c (cs ++ (b' ' ∷ rest)) (consume-method_start b r c (ground arith))
    ∙ run-method cs rest b (record r { method = r.method ++ c ∷ [] }) (ground arith)
    ∙ rw append_assoc

pub on_last-concat :
    (f : Header → Header) (hs : List Header) (h : Header)
    → on_last f (hs ++ h ∷ []) ≡ some (hs ++ f h ∷ [])
unfolding on_last
on_last-concat f [] h = refl
on_last-concat f (x ∷ []) h = refl
on_last-concat f (x ∷ y ∷ hs) h = rw (on_last-concat f (y ∷ hs) h)

-- The request with `hs` read and one more header begun.
abbrev begun : Request → List Header → Bytes → Bytes → Request
begun r hs name value = record r { headers = hs ++ record { name = name; value = value } ∷ [] }

module _ (b : ℕ) (r : Request) (hs : List Header) where
  consume-header_line_start :
      (c : ℕ)
      → not_token c ≡ false
      → consume (at header_line_start b (record r { headers = hs })) c
        ≡ more (at header_name b (begun r hs (to_lower c ∷ []) []))
  unfolding consume add_name
  consume-header_line_start c h = ground (
    arith,
    token_ne c b' ',
    token_ne c b'\t',
    token_ne c b'\r',
    not_token_space,
    not_token_tab,
    not_token_cr,
    on_last-concat (add_name (to_lower c)) hs (record { name = []; value = [] }),
  )

  consume-header_name :
      (c : ℕ) (n : Bytes)
      → not_token c ≡ false
      → consume (at header_name b (begun r hs n [])) c
        ≡ more (at header_name b (begun r hs (n ++ to_lower c ∷ []) []))
  unfolding consume add_name
  consume-header_name c n h = ground (
    arith,
    token_ne c b':',
    not_token_colon,
    on_last-concat (add_name (to_lower c)) hs (record { name = n; value = [] }),
  )

  consume-header_value :
      (c : ℕ) (n v : Bytes)
      → is_ctl (char_to_int c) ≡ false
      → consume (at header_value b (begun r hs n v)) c
        ≡ more (at header_value b (begun r hs n (v ++ c ∷ [])))
  unfolding consume add_value
  consume-header_value c n v h = ground (
    arith,
    ctl_ne c b'\r',
    is_ctl_cr,
    on_last-concat (add_value c) hs (record { name = n; value = v }),
  )

  run-header_name :
      (cs n rest : Bytes)
      → all token cs ≡ true
      → parse (at header_name b (begun r hs n [])) (cs ++ (b':' ∷ b' ' ∷ rest))
        ≡ parse (at header_value b (begun r hs (n ++ map to_lower cs) [])) rest
  run-header_name [] n rest h = rw append-nil (
      move header_name space_before_header_value b':' (b' ' ∷ rest) b (begun r hs n [])
        (unfold consume in refl)
      ∙ move space_before_header_value header_value b' ' rest b (begun r hs n [])
          (unfold consume in refl))
  run-header_name (c ∷ cs) n rest h =
      parse-more _ c (cs ++ (b':' ∷ b' ' ∷ rest)) (consume-header_name c n (ground arith))
      ∙ run-header_name cs (n ++ to_lower c ∷ []) rest (ground arith)
      ∙ rw append_assoc

  run-header_value :
      (cs n v rest : Bytes)
      → all value_byte cs ≡ true
      → parse (at header_value b (begun r hs n v)) (cs ++ (b'\r' ∷ b'\n' ∷ rest))
        ≡ parse (at header_line_start b (begun r hs n (v ++ cs))) rest
  run-header_value [] n v rest h = rw append-nil (
      move header_value expecting_newline_2 b'\r' (b'\n' ∷ rest) b (begun r hs n v)
        (unfold consume in refl)
      ∙ move expecting_newline_2 header_line_start b'\n' rest b (begun r hs n v)
          (unfold consume in refl))
  run-header_value (c ∷ cs) n v rest h =
      parse-more _ c (cs ++ (b'\r' ∷ b'\n' ∷ rest)) (consume-header_value c n v (ground arith))
      ∙ run-header_value cs n (v ++ c ∷ []) rest (ground arith)
      ∙ rw append_assoc

  run_header :
      (h : Header) (rest : Bytes)
      → IsWireHeader h
      → parse (at header_line_start b (record r { headers = hs })) (print_header h rest)
        ≡ parse (at header_line_start b (record r { headers = hs ++ lower_name h ∷ [] })) rest
  run_header h rest (ne, ok, v) = run_name h.name refl ne ok
    where
      run_name :
          (cs : Bytes)
          → h.name ≡ cs
          → is_empty cs ≡ false
          → all token cs ≡ true
          → parse (at header_line_start b (record r { headers = hs })) (print_header h rest)
            ≡ parse (at header_line_start b (record r { headers = hs ++ lower_name h ∷ [] })) rest
      run_name [] e ne ok = cc
      run_name (c ∷ cs) e ne ok = rw e (
          parse-more _ c (cs ++ (b':' ∷ b' ' ∷ (h.value ++ (b'\r' ∷ b'\n' ∷ rest))))
            (consume-header_line_start c (ground arith))
          ∙ run-header_name cs (to_lower c ∷ []) _ (ground arith)
          ∙ run-header_value h.value (map to_lower (c ∷ cs)) [] rest v)

-- From one header line to the line behind the last one.
pub run_headers :
    (ks hs : List Header) (rest : Bytes) (b : ℕ) (r : Request)
    → All IsWireHeader ks
    → parse (at header_line_start b (record r { headers = hs })) (print_headers ks rest)
      ≡ parse (at header_line_start b (record r { headers = hs ++ map lower_name ks })) rest
run_headers [] hs rest b r a = rw append-nil
run_headers (k ∷ ks) hs rest b r a =
    run_header b r hs k (print_headers ks rest) a.0
    ∙ run_headers ks (hs ++ lower_name k ∷ []) rest b r a.1
    ∙ rw append_assoc

-- ===== src/Url/Escapes.antt =====
-- The spellings of a text that `url_decode` (src/request_handler.cpp) undoes.
use as_proxyd.Common.{
  all, not, ◌&&◌, ℕ, ◌+◌, ◌*◌, ◌≤◌, ◌≡◌, refl, ◌∙◌, arith, true, false, [], ◌∷◌, ◌++◌, some, inl,
  inr, Option-cases, ◌==◌, Bytes, length, length-append, append_assoc, append-nil, is_space,
}
use as_proxyd.Url.{hex_digit, read_hex, plain, decode_from, url_decode}

-- `Escapes text s`: in `s` each byte of the text stands as itself, if it is neither `%` nor `+`, or
-- as `%` and two hexadecimal digits of either case; a blank may stand as `+`.
pub data Escapes : Bytes → Bytes → Type 0 where
  end : Escapes [] []
  literal :
      {c : ℕ} {cs s : Bytes}
      → (c == b'%') ≡ false
      → (c == b'+') ≡ false
      → Escapes cs s
      → Escapes (c ∷ cs) (c ∷ s)
  blank : {cs s : Bytes} → Escapes cs s → Escapes (b' ' ∷ cs) (b'+' ∷ s)
  escaped :
      {c a b v w : ℕ} {cs s : Bytes}
      → hex_digit a ≡ some v
      → hex_digit b ≡ some w
      → c ≡ v * 16 + w
      → Escapes cs s
      → Escapes (c ∷ cs) (b'%' ∷ a ∷ b ∷ s)

-- A text without escapes.
pub all-Escapes : (s : Bytes) → all (λ c. not (c == b'%') && not (c == b'+')) s ≡ true → Escapes s s
all-Escapes [] h = end
all-Escapes (c ∷ s) h = literal (ground arith) (ground arith) (all-Escapes s (ground arith))

-- Two digits are read as the number that they spell.
read_hex-digits :
    (a b v w : ℕ) → hex_digit a ≡ some v → hex_digit b ≡ some w → read_hex a b ≡ some (v * 16 + w)
unfolding read_hex is_space
read_hex-digits a b v w e f = ground arith

decode_from-plain :
    (c : ℕ) (out s : Bytes)
    → (c == b'%') ≡ false
    → decode_from out (c ∷ s) ≡ decode_from (out ++ plain c ∷ []) s
unfolding decode_from
decode_from-plain c out [] h = rw h
decode_from-plain c out (a ∷ []) h = rw h
decode_from-plain c out (a ∷ b ∷ s) h = rw (h, decode_from)

decode_from-escaped :
    (a b v : ℕ) (out s : Bytes)
    → read_hex a b ≡ some v
    → decode_from out (b'%' ∷ a ∷ b ∷ s) ≡ decode_from (out ++ v ∷ []) s
unfolding decode_from
decode_from-escaped a b v out s h = rw (h, decode_from)

plain_literal : (c : ℕ) → (c == b'+') ≡ false → plain c ≡ c
unfolding plain
plain_literal c h = ground arith

plain_plus : plain b'+' ≡ b' '
unfolding plain
plain_plus = refl

decode_from-Escapes :
    {text s : Bytes} (out : Bytes) → Escapes text s → decode_from out s ≡ (true, out ++ text)
decode_from-Escapes out end = unfold decode_from in rw append-nil
decode_from-Escapes out (literal {c} {cs} {s} h k e) =
    decode_from-plain c out s h
    ∙ rw (plain_literal c k) (decode_from-Escapes (out ++ c ∷ []) e ∙ rw append_assoc)
decode_from-Escapes out (blank {cs} {s} e) =
    decode_from-plain b'+' out s refl
    ∙ rw plain_plus (decode_from-Escapes (out ++ b' ' ∷ []) e ∙ rw append_assoc)
decode_from-Escapes out (escaped {c} {a} {b} {v} {w} {cs} {s} h k q e) =
    decode_from-escaped a b c out s (rw q (read_hex-digits a b v w h k))
    ∙ decode_from-Escapes (out ++ c ∷ []) e
    ∙ rw append_assoc

-- Whatever spelling of a text the client chooses, `url_decode` succeeds and gives the text.
pub url_decode-Escapes : {text s : Bytes} → Escapes text s → url_decode s ≡ (true, text)
unfolding url_decode
url_decode-Escapes e = decode_from-Escapes [] e

length-decode_from : (out s : Bytes) → length (decode_from out s).1 ≤ length out + length s
unfolding decode_from
length-decode_from out [] = omega arith
length-decode_from out (c ∷ []) = ground (arith, length-append out (plain c ∷ []))
length-decode_from out (c ∷ a ∷ []) =
    ground
      (arith, length-append out (plain c ∷ []), length-decode_from (out ++ plain c ∷ []) (a ∷ []))
length-decode_from out (c ∷ a ∷ b ∷ s) = elim (Option-cases (read_hex a b)) [
  | inl e ↦ ground (
    arith,
    e,
    length-append out (plain c ∷ []),
    length-decode_from (out ++ plain c ∷ []) (a ∷ b ∷ s),
  )
  | inr (v, e) ↦ ground (
    arith,
    e,
    length-append out (plain c ∷ []),
    length-append out (v ∷ []),
    length-decode_from (out ++ plain c ∷ []) (a ∷ b ∷ s),
    length-decode_from (out ++ v ∷ []) s,
  )
]

-- The decoded text is not longer than the input, so what `out.reserve(in.size())` reserves suffices.
pub length-url_decode : (s : Bytes) → length (url_decode s).1 ≤ length s
unfolding url_decode
length-url_decode s = omega (arith, length-decode_from [] s)

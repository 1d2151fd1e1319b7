-- ===== src/Base64/Prefix/Groups.antt =====
-- One round of the loop of `base64DecodeToData` (src/wp_base64.cpp), and four of them.
use as_proxyd.Common.{
  ℕ, zero, suc, ◌+◌, ◌*◌, ◌/◌, ◌%◌, ◌^◌, ◌≤◌, ◌<◌, ◌≡◌, refl, ◌∙◌, ap, arith, Bool, true, false, [],
  ◌∷◌, ◌++◌, length, length-append, Bytes, take, leb, Bool-cases, inl, inr, bit_and, ◌==◌,
  or_zero_left, bit_or-disjoint, append_assoc, append-nil, all_below, all_below_sound, ==_iff,
}
use as_proxyd.Base64.{
  symbol, sextet_0, sextet_1, sextet_2, sextet_3, quad, write, data_loop, Progress, gathered, feed,
}
use as_proxyd.Base64.Bits.{sextet_0_lem, sextet_1_lem, sextet_2_lem, sextet_3_lem}
use as_proxyd.Base64.RoundTrip.{sextet_0-lt, sextet_1-lt, sextet_2-lt, sextet_3-lt}
use as_proxyd.Base64.Symbols.{symbol_facts}
use as_proxyd.Base64.ToData.{data_loop-return, data_loop-feed}

pub take_all : (n : ℕ) (xs : Bytes) → length xs ≤ n → take n xs ≡ xs
take_all zero [] h = refl
take_all zero (x ∷ xs) h = absurd (omega arith)
take_all (suc n) [] h = refl
take_all (suc n) (x ∷ xs) h = ap (◌∷◌ x) (take_all n xs (omega arith))

pub take-append_left : (n : ℕ) (xs ys : Bytes) → n ≤ length xs → take n (xs ++ ys) ≡ take n xs
take-append_left zero xs ys h = refl
take-append_left (suc n) [] ys h = absurd (omega arith)
take-append_left (suc n) (x ∷ xs) ys h = ap (◌∷◌ x) (take-append_left n xs ys (omega arith))

-- All is written while there is room behind it, and otherwise what fits.
write_room :
    (room : ℕ) (out bs : Bytes)
    → length out + length bs < room
    → write room out bs ≡ (out ++ bs, false)
unfolding write
write_room room out [] h = rw append-nil
write_room room out (b ∷ bs) h = ground (
  arith,
  length-append out (b ∷ []),
  write_room room (out ++ b ∷ []) bs,
  append_assoc out (b ∷ []) bs,
)

write_full :
    (room : ℕ) (out bs : Bytes)
    → length out < room
    → room ≤ length out + length bs
    → write room out bs ≡ (take room (out ++ bs), true)
unfolding write
write_full room out [] h k = absurd (omega arith)
write_full room out (b ∷ bs) h k = elim (Bool-cases (leb room (length (out ++ b ∷ [])))) [
  | inl e ↦ rw e (
      ap (λ (t : Bytes). (t, true))
        (ground (
          arith,
          length-append out (b ∷ []),
          append_assoc out (b ∷ []) bs,
          take-append_left room (out ++ b ∷ []) bs,
          take_all room (out ++ b ∷ []),
        )))
  | inr e ↦ rw e (
      write_full room (out ++ b ∷ []) bs (ground (arith))
        (ground (arith, length-append out (b ∷ [])))
      ∙ rw append_assoc)
]

low_six : (n : ℕ) → n < 64 → bit_and n 63 ≡ n
unfolding all_below
low_six n h = (==_iff (bit_and n 63) n).0 (all_below_sound 64 (λ c. bit_and c 63 == c) n refl h)

module _ (room : ℕ) (out : Bytes) (n : ℕ) (h : n < 64) where
  feed_first : feed room (gathered out 0 0) n ≡ gathered out (n * 2 ^ 18) 6
  unfolding feed
  feed_first = rw (low_six n h, or_zero_left)

  feed_second :
      (p : ℕ) → feed room (gathered out (p * 2 ^ 18) 6) n ≡ gathered out ((p * 64 + n) * 2 ^ 12) 12
  unfolding feed
  feed_second p =
      rw (low_six n h, bit_or-disjoint 18 p (n * 2 ^ 12) (omega arith))
        (ap (λ x. gathered out x 12) (omega arith))

  feed_third :
      (p : ℕ) → feed room (gathered out (p * 2 ^ 12) 12) n ≡ gathered out ((p * 64 + n) * 2 ^ 6) 18
  unfolding feed
  feed_third p =
      rw (low_six n h, bit_or-disjoint 12 p (n * 2 ^ 6) (omega arith))
        (ap (λ x. gathered out x 18) (omega arith))

  -- The fourth symbol of a group completes three bytes.
  feed_fourth :
      (p a b c : ℕ)
      → ((p * 64 + n) / 2 ^ 16) % 256 ≡ a
      → ((p * 64 + n) / 2 ^ 8) % 256 ≡ b
      → (p * 64 + n) % 256 ≡ c
      → feed room (gathered out (p * 2 ^ 6) 18) n ≡ record {
        out = (write room out (a ∷ b ∷ c ∷ [])).0;
        a = 0;
        bc = 0;
        returned = (write room out (a ∷ b ∷ c ∷ [])).1;
      }
  unfolding feed
  feed_fourth p a b c ea eb ec =
      rw (low_six n h, bit_or-disjoint 6 p (n * 2 ^ 0) (omega arith))
        (rw (let e : p * 2 ^ 6 + n * 2 ^ 0 ≡ p * 64 + n = omega arith in e) (rw (ea, eb, ec)))

-- One symbol that does not make the function return.
data_loop-symbol :
    (room n : ℕ) (p q : Progress) (cs : Bytes)
    → n < 64
    → feed room p n ≡ q
    → q.returned ≡ false
    → data_loop room p (symbol n ∷ cs) ≡ data_loop room q cs
data_loop-symbol room n p q cs h e r =
    let (_, _, d) = symbol_facts n h in
    data_loop-feed room p (symbol n) n cs d (rw e r) ∙ ap (λ x. data_loop room x cs) e

data_loop-last_symbol :
    (room n : ℕ) (p q : Progress) (cs : Bytes)
    → n < 64
    → feed room p n ≡ q
    → q.returned ≡ true
    → data_loop room p (symbol n ∷ cs) ≡ q.out
data_loop-last_symbol room n p q cs h e r =
    let (_, _, d) = symbol_facts n h in
    data_loop-return room p (symbol n) n cs d (rw e r) ∙ ap (λ x. x.out) e

module _ (room : ℕ) (out : Bytes) (a b : ℕ) (ha : a < 256) (hb : b < 256) (cs : Bytes) where
  pub two_symbols :
      data_loop room (gathered out 0 0) (symbol (sextet_0 a) ∷ symbol (sextet_1 a b) ∷ cs)
      ≡ data_loop room (gathered out ((sextet_0 a * 64 + sextet_1 a b) * 2 ^ 12) 12) cs
  two_symbols =
      let h0 = sextet_0-lt a b b ha hb hb in
      let h1 = sextet_1-lt a b b ha hb hb in
      data_loop-symbol room _ _ _ _ h0 (feed_first room out _ h0) refl
      ∙ data_loop-symbol room _ _ _ _ h1 (feed_second room out _ h1 _) refl

module _ (room : ℕ) (out : Bytes) (a b c : ℕ) (ha : a < 256) (hb : b < 256) (hc : c < 256)
    (cs : Bytes) where
  pub three_symbols :
      data_loop room
        (gathered out 0 0)
        (symbol (sextet_0 a) ∷ symbol (sextet_1 a b) ∷ symbol (sextet_2 b c) ∷ cs)
      ≡ data_loop room
          (gathered out (((sextet_0 a * 64 + sextet_1 a b) * 64 + sextet_2 b c) * 2 ^ 6) 18)
          cs
  three_symbols =
      let h2 = sextet_2-lt a b c ha hb hc in
      two_symbols room out a b ha hb _
      ∙ data_loop-symbol room _ _ _ _ h2 (feed_third room out _ h2 _) refl

  abbrev word : ℕ
  word = ((sextet_0 a * 64 + sextet_1 a b) * 64 + sextet_2 b c) * 64 + sextet_3 c

  word_lem : word ≡ a * 2 ^ 16 + b * 2 ^ 8 + c
  word_lem = omega (
    arith,
    sextet_0_lem a a ha ha,
    sextet_1_lem a b ha hb,
    sextet_2_lem b c hb hc,
    sextet_3_lem c c hc hc,
  )

  last_feed :
      feed room
        (gathered out (((sextet_0 a * 64 + sextet_1 a b) * 64 + sextet_2 b c) * 2 ^ 6) 18)
        (sextet_3 c)
      ≡ record {
        out = (write room out (a ∷ b ∷ c ∷ [])).0;
        a = 0;
        bc = 0;
        returned = (write room out (a ∷ b ∷ c ∷ [])).1;
      }
  last_feed =
      feed_fourth room out (sextet_3 c) (sextet_3-lt a b c ha hb hc) _ a b c
        (omega (arith, word_lem)) (omega (arith, word_lem)) (omega (arith, word_lem))

module _ (room : ℕ) (out : Bytes) (a b c : ℕ) (ha : a < 256) (hb : b < 256) (hc : c < 256) where
  four_symbols :
      (full : Bool) (out' cs : Bytes)
      → write room out (a ∷ b ∷ c ∷ []) ≡ (out', full)
      → feed room
          (gathered out (((sextet_0 a * 64 + sextet_1 a b) * 64 + sextet_2 b c) * 2 ^ 6) 18)
          (sextet_3 c)
        ≡ record { out = out'; a = 0; bc = 0; returned = full }
  four_symbols full out' cs w =
      last_feed room out a b c ha hb hc cs
      ∙ ap {B = Progress} (λ x. record { out = x.0; a = 0; bc = 0; returned = x.1 }) w

  -- A whole group, with room behind its bytes and without.
  pub quad_room :
      (cs : Bytes)
      → length out + 3 < room
      → data_loop room (gathered out 0 0) (quad a b c ++ cs)
        ≡ data_loop room (gathered (out ++ a ∷ b ∷ c ∷ []) 0 0) cs
  quad_room cs h =
      three_symbols room out a b c ha hb hc _
      ∙ data_loop-symbol room (sextet_3 c) _ _ cs (sextet_3-lt a b c ha hb hc)
          (four_symbols false _ cs (write_room room out (a ∷ b ∷ c ∷ []) h)) refl

  pub quad_full :
      (cs : Bytes)
      → length out < room
      → room ≤ length out + 3
      → data_loop room (gathered out 0 0) (quad a b c ++ cs) ≡ take room (out ++ a ∷ b ∷ c ∷ [])
  quad_full cs h k =
      three_symbols room out a b c ha hb hc _
      ∙ data_loop-last_symbol room (sextet_3 c) _ _ cs (sextet_3-lt a b c ha hb hc)
          (four_symbols true _ cs (write_full room out (a ∷ b ∷ c ∷ []) h k)) refl

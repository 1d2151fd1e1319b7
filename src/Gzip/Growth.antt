-- ===== src/Gzip/Growth.antt =====
-- What `gzdecode` (src/as_gzip.cpp) finds: the rounds of its loop try the buffers of 16 to 32768
-- times the input.
use as_proxyd.Common.{
  ℕ, zero, suc, ◌-◌, ◌%◌, ◌^◌, ◌≤◌, ◌<◌, ◌≡◌, refl, Bool, true, [], ◌∷◌, ◌++◌, Option, none, some,
  Bytes, length, arith, ap, ◌∙◌, Bool-cases, inl, inr, ◌⊎◌,
}
use mathlib.Core.Option.{some-injective}
use native.Mathlib.Nat.{pow-le-pow_right}
use as_proxyd.Gzip.{
  Status, z_ok, z_stream_end, z_buf_error, z_error, Zlib, settled, round, buffer_size, attempt,
  finish, rounds, gzdecode,
}

compare-cases : (f g : ℕ) → f ≤ g → (f < g) ⊎ (f ≡ g)
compare-cases f g h = grind arith

module _ (z : Zlib) (realloc : ℕ → Bool) (s : Bytes) where
  open z use {inflate_init, inflate, inflate_end}

  abbrev input : Bytes
  input = s ++ 0 ∷ []

  round_inflated :
      (n : ℕ) (r : Status × Bytes)
      → inflate_init ≡ z_ok
      → inflate_end ≡ z_ok
      → inflate input n ≡ r
      → round z input n ≡ (settled r.0 z_ok, r.1)
  unfolding round
  round_inflated n r i e h = rw (i, round) (rw (h, e))

  settle_cases :
      (n large : ℕ) (out : Bytes) (r : Status × Bytes)
      → inflate input n ≡ r
      → inflate input large ≡ (z_stream_end, out)
      → n ≤ large
      → ((settled r.0 z_ok ≡ z_ok) × (r.1 ≡ out)) ⊎ (settled r.0 z_ok ≡ z_buf_error)
  settle_cases n large out (z_ok, o) h l k = inr refl
  settle_cases n large out (z_buf_error, o) h l k = inr refl
  settle_cases n large out (z_error, o) h l k =
      absurd (z.inflate_smaller input n large out l k (ap (λ x. x.0) h))
  settle_cases n large out (z_stream_end, o) h l k =
      let m = z.inflate_larger input n large o h k in inl (refl, (let q : o ≡ out = cc in q))

  -- A round in a buffer of `n` bytes ends the loop with the text, or calls for the next one.
  round_cases :
      (n large : ℕ) (out : Bytes)
      → inflate_init ≡ z_ok
      → inflate_end ≡ z_ok
      → inflate input large ≡ (z_stream_end, out)
      → n ≤ large
      → (round z input n ≡ (z_ok, out)) ⊎ ((o : Bytes) × (round z input n ≡ (z_buf_error, o)))
  round_cases n large out i e h k = elim (settle_cases n large out (inflate input n) refl h k) [
    | inl (p, q) ↦ inl (round_inflated n (inflate input n) i e refl ∙ rw (p, q))
    | inr p ↦ inr ((inflate input n).1, round_inflated n (inflate input n) i e refl ∙ rw p)
  ]

  buffer_size_mono : (f g : ℕ) → f ≤ g → buffer_size s f ≤ buffer_size s g
  buffer_size_mono f g h =
      grind (arith, let p : 2 ^ f ≤ 2 ^ g = pow-le-pow_right (omega arith) h in p)

  attempt-round :
      (f : ℕ)
      → ((n : ℕ) → realloc n ≡ true)
      → length s < 2 ^ 17
      → f ≤ 15
      → attempt z realloc s f ≡ some (round z input (buffer_size s f))
  unfolding attempt
  attempt-round f alive short h =
      let fits : buffer_size s f % 2 ^ 32 ≡ buffer_size s f =
        omega (arith, buffer_size_mono f 15 h) in
      rw (alive (buffer_size s f)) (rw fits)

  module _ (factor : ℕ) (out : Bytes) (alive : (n : ℕ) → realloc n ≡ true)
      (short : length s < 2 ^ 17) (i : inflate_init ≡ z_ok) (e : inflate_end ≡ z_ok)
      (h : inflate (s ++ 0 ∷ []) (buffer_size s factor) ≡ (z_stream_end, out)) where
    round_from :
        (f : ℕ) (again : Option Bytes)
        → f ≤ 15
        → f ≤ factor
        → (f < factor → again ≡ some out)
        → finish (attempt z realloc s f) again ≡ some out
    round_from f again low below ih =
        let first = attempt-round f alive short low in
        elim (compare-cases f factor below) [
          | inl less ↦
              elim (round_cases (buffer_size s f) (buffer_size s factor) out i e h
                (buffer_size_mono f factor below)) [
                  | inl done ↦ rw (first, done)
                  | inr (o, full) ↦ rw (first, full) (ih less)
                ]
          | inr same ↦
              rw (first, same)
                (rw (round_inflated (buffer_size s factor) (z_stream_end, out) i e h))
        ]

    rounds_find :
        (left : ℕ)
        → left ≤ 11
        → 15 - left ≤ factor
        → factor ≤ 15
        → rounds z realloc s left ≡ some out
    unfolding rounds
    rounds_find zero b low high =
        round_from 15 none (omega arith) low (λ less. absurd (omega arith))
    rounds_find (suc left) b low high =
        round_from (14 - left) (rounds z realloc s left) (omega arith) (omega arith)
          (λ less. rounds_find left (omega arith) (omega arith) high)

  -- If zlib inflates the input to a text in a buffer of 16, 32, and so on up to 32768 times its
  -- length, then `gzdecode` returns that text, whichever of these sizes it needs. The input is below
  -- 128 KiB, so that the sizes keep within 32 bits, and the allocator has room.
  pub gzdecode_complete :
      (factor : ℕ) (out : Bytes)
      → ((n : ℕ) → realloc n ≡ true)
      → length s < 2 ^ 17
      → inflate_init ≡ z_ok
      → inflate_end ≡ z_ok
      → inflate (s ++ 0 ∷ []) (buffer_size s factor) ≡ (z_stream_end, out)
      → 4 ≤ factor
      → factor ≤ 15
      → gzdecode z realloc s ≡ some out
  unfolding gzdecode
  gzdecode_complete factor out alive short i e h low high =
      rounds_find factor out alive short i e h 11 (omega arith) (omega arith) high

  -- The text of a round: zlib inflated the input to it, in a buffer that it did not leave.
  abbrev pub Inflates : ℕ → Bytes → Type 0
  Inflates f out =
      (inflate (s ++ 0 ∷ []) (buffer_size s f % 2 ^ 32) ≡ (z_stream_end, out))
      × (length out ≤ buffer_size s f)

  settled_sound :
      (n : ℕ) (r : Status × Bytes) (out : Bytes)
      → inflate input n ≡ r
      → settled r.0 inflate_end ≡ z_ok
      → r.1 ≡ out
      → inflate input n ≡ (z_stream_end, out)
  settled_sound n (z_stream_end, o) out h e q = h ∙ ap (λ x. (z_stream_end, x)) q
  settled_sound n (z_ok, o) out h e q = cc
  settled_sound n (z_buf_error, o) out h e q = cc
  settled_sound n (z_error, o) out h e q = cc

  round_sound :
      (n : ℕ) (out : Bytes) (st : Status)
      → inflate_init ≡ st
      → (round z input n).0 ≡ z_ok
      → (round z input n).1 ≡ out
      → inflate input n ≡ (z_stream_end, out)
  unfolding round
  round_sound n out z_ok i e q =
      settled_sound n (inflate input n) out refl (rw (i, round) at e) (rw (i, round) at q)
  round_sound n out z_stream_end i e q = let c : z_stream_end ≡ z_ok = rw (i, round) at e in cc
  round_sound n out z_buf_error i e q = let c : z_buf_error ≡ z_ok = rw (i, round) at e in cc
  round_sound n out z_error i e q = let c : z_error ≡ z_ok = rw (i, round) at e in cc

  attempt-some :
      (f : ℕ) (r : Status × Bytes)
      → attempt z realloc s f ≡ some r
      → round z input (buffer_size s f % 2 ^ 32) ≡ r
  unfolding attempt
  attempt-some f r q = elim (Bool-cases (realloc (buffer_size s f))) [
    | inl a ↦ some-injective _ _ (rw a at q)
    | inr a ↦ let c : none ≡ some r = rw a at q in cc
  ]

  Inflates-intro :
      (f : ℕ) (out : Bytes)
      → round z input (buffer_size s f % 2 ^ 32) ≡ (z_ok, out)
      → Inflates f out
  Inflates-intro f out q =
      let n : ℕ = buffer_size s f % 2 ^ 32 in
      let h = round_sound n out inflate_init refl (ap (λ x. x.0) q) (ap (λ x. x.1) q) in
      (
        h,
        rw (ap (λ (x : Status × Bytes). x.1) h) at (
            let b : length (inflate input n).1 ≤ buffer_size s f =
              omega (arith, z.inflate_bounds input n) in
            b),
      )

  finish_sound :
      (f : ℕ) (out : Bytes) (again : Option Bytes) (a : Option (Status × Bytes))
      → attempt z realloc s f ≡ a
      → finish a again ≡ some out
      → Inflates f out ⊎ (again ≡ some out)
  finish_sound f out again none q e = cc
  finish_sound f out again (some (z_ok, o)) q e = inl (
      Inflates-intro f out
        (attempt-some f (z_ok, o) q ∙ ap (λ x. (z_ok, x)) (some-injective _ _ e)))
  finish_sound f out again (some (z_buf_error, o)) q e = inr e
  finish_sound f out again (some (z_stream_end, o)) q e = cc
  finish_sound f out again (some (z_error, o)) q e = cc

  rounds_sound :
      (left : ℕ) (out : Bytes)
      → left ≤ 11
      → rounds z realloc s left ≡ some out
      → (f : ℕ) × (4 ≤ f) × (f ≤ 15) × Inflates f out
  unfolding rounds
  rounds_sound zero out b e = elim (finish_sound 15 out none (attempt z realloc s 15) refl e) [
    | inl v ↦ (15, omega arith, omega arith, v)
    | inr c ↦ cc
  ]
  rounds_sound (suc left) out b e =
      elim (finish_sound (14 - left) out (rounds z realloc s left) (attempt z realloc s (14 - left))
        refl e) [
          | inl v ↦ (14 - left, omega arith, omega arith, v)
          | inr c ↦ rounds_sound left out (omega arith) c
        ]

  -- Whatever `gzdecode` returns is what zlib inflated the input to, in a buffer that was large
  -- enough for it: between 16 and 32768 times the input.
  pub gzdecode_sound :
      (out : Bytes)
      → gzdecode z realloc s ≡ some out
      → (f : ℕ) × (4 ≤ f) × (f ≤ 15) × Inflates f out
  unfolding gzdecode
  gzdecode_sound out e = rounds_sound 11 out (omega arith) e

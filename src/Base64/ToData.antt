-- ===== src/Base64/ToData.antt =====
-- `base64DecodeToData` (src/wp_base64.cpp): the destination is never overrun, and a destination
-- that is too small gets the beginning of what a large one gets.
use as_proxyd.Common.{
  ℕ, ◌-◌, ◌*◌, ◌/◌, ◌%◌, ◌^◌, ◌≤◌, ◌<◌, ◌≡◌, arith, true, false, [], ◌∷◌, ◌++◌, length,
  length-append, Bytes, none, some, Option-cases, Bool-cases, inl, inr, bit_or, bit_and,
}
use as_proxyd.Base64.{
  dec_table, write, Progress, gathered, feed, data_rest, data_loop, base64_decode_to_data,
}

module _ (room : ℕ) (p : Progress) (c n : ℕ) (cs : Bytes) where
  pub data_loop-return :
      dec_table c ≡ some n
      → (feed room p n).returned ≡ true
      → data_loop room p (c ∷ cs) ≡ (feed room p n).out
  unfolding data_loop
  data_loop-return e r = rw (e, data_loop) (rw r)

  pub data_loop-feed :
      dec_table c ≡ some n
      → (feed room p n).returned ≡ false
      → data_loop room p (c ∷ cs) ≡ data_loop room (feed room p n) cs
  unfolding data_loop
  data_loop-feed e r = rw (e, data_loop) (rw r)

pub data_loop-skip :
    (room : ℕ) (p : Progress) (c : ℕ) (cs : Bytes)
    → dec_table c ≡ none
    → data_loop room p (c ∷ cs) ≡ data_loop room p cs
unfolding data_loop
data_loop-skip room p c cs e = rw (e, data_loop)

-- With room for one more byte at the start, every write is within the destination, and there is
-- room again unless the function has returned.
write_bounds :
    (room : ℕ) (out bs : Bytes)
    → length out < room
    → (length (write room out bs).0 ≤ room)
      × ((write room out bs).1 ≡ false → length (write room out bs).0 < room)
unfolding write
write_bounds room out [] h = (omega arith, λ e. h)
write_bounds room out (b ∷ bs) h =
    ground (arith, length-append out (b ∷ []), write_bounds room (out ++ b ∷ []) bs)

data_rest_bounds :
    (room : ℕ) (out : Bytes) (a bc : ℕ)
    → length out < room
    → length (data_rest room out a bc) ≤ room
unfolding data_rest
data_rest_bounds room out a bc h = ground (
  arith,
  length-append out ((a / 2 ^ 16) % 256 ∷ []),
  length-append (out ++ (a / 2 ^ 16) % 256 ∷ []) ((a / 2 ^ 8) % 256 ∷ []),
)

feed_bounds :
    (room : ℕ) (p : Progress) (n : ℕ)
    → length p.out < room
    → (length (feed room p n).out ≤ room)
      × ((feed room p n).returned ≡ false → length (feed room p n).out < room)
unfolding feed
feed_bounds room p n h =
    let a = bit_or p.a (bit_and n 63 * 2 ^ (18 - p.bc)) in
    ground (arith, write_bounds room p.out ((a / 2 ^ 16) % 256 ∷ (a / 2 ^ 8) % 256 ∷ a % 256 ∷ []))

data_loop_bounds :
    (s : Bytes) (room : ℕ) (p : Progress) → length p.out < room → length (data_loop room p s) ≤ room
data_loop_bounds [] room p h = unfold data_loop in data_rest_bounds room p.out p.a p.bc h
data_loop_bounds (c ∷ cs) room p h = elim (Option-cases (dec_table c)) [
  | inl e ↦ rw (data_loop-skip room p c cs e) (data_loop_bounds cs room p h)
  | inr (n, e) ↦ elim (Bool-cases (feed room p n).returned) [
    | inl r ↦ rw (data_loop-return room p c n cs e r) (feed_bounds room p n h).0
    | inr r ↦
        rw (data_loop-feed room p c n cs e r)
          (data_loop_bounds cs room (feed room p n) ((feed_bounds room p n h).1 r))
  ]
]

-- No input makes it write behind the destination.
pub base64_decode_to_data_bounds :
    (s : Bytes) (room : ℕ) → length (base64_decode_to_data s room) ≤ room
unfolding base64_decode_to_data
base64_decode_to_data_bounds s room = ground (arith, data_loop_bounds s room (gathered [] 0 0))

-- ===== src/Gzip/Uses.antt =====
-- What `gzdecode` (src/as_gzip.cpp) acquires, uses and gives back: the buffer, and the stream of zlib.
use as_proxyd.Common.{
  ℕ, zero, suc, ◌-◌, Bool, true, false, List, [], ◌∷◌, ◌++◌, Option, none, some, ◌≡◌, refl, ◌∙◌, ap,
  arith, if◌then◌else◌, Bytes,
}
use as_proxyd.Gzip.{
  Status, z_ok, z_stream_end, z_buf_error, z_error, Zlib, buffer_size, attempt, finish, rounds,
  gzdecode,
}
use as_proxyd.Parser.{is_empty}
use as_proxyd.Ownership.{
  Name, s2, stream, Use, acquires, reads, releases, owns, without, run_uses, run_uses-append,
}

-- `inflateInit2`, `inflate` and `inflateEnd`.
abbrev pub stream_uses : Status → List Use
stream_uses z_ok = acquires stream ∷ reads stream ∷ reads s2 ∷ releases stream ∷ []
stream_uses z_stream_end = []
stream_uses z_buf_error = []
stream_uses z_error = []

-- A round. `realloc` gives the old buffer back, but in the first round there is none. To no size it frees
-- the old buffer and returns NULL, and the code frees it again.
abbrev pub attempt_uses : Bool → Bool → Bool → Status → List Use
attempt_uses true true empty init = acquires s2 ∷ stream_uses init
attempt_uses true false empty init = []
attempt_uses false true empty init = releases s2 ∷ acquires s2 ∷ stream_uses init
attempt_uses false false false init = releases s2 ∷ []
attempt_uses false false true init = releases s2 ∷ releases s2 ∷ []

-- The end of a round: the buffer is shrunk and returned, or kept for the next round, or freed.
abbrev pub finish_uses : Option (Status × Bytes) → List Use → List Use
finish_uses none again = []
finish_uses (some (z_ok, out)) again = releases s2 ∷ acquires s2 ∷ reads s2 ∷ []
finish_uses (some (z_buf_error, out)) again = again
finish_uses (some (z_stream_end, out)) again = releases s2 ∷ []
finish_uses (some (z_error, out)) again = releases s2 ∷ []

-- What is owned before a round, within it, and behind the last.
abbrev before : Bool → List Name
before true = []
before false = s2 ∷ []

abbrev within_round : Option (Status × Bytes) → List Name
within_round none = []
within_round (some r) = s2 ∷ []

abbrev pub returned : Option Bytes → List Name
returned none = []
returned (some text) = s2 ∷ []

stream_uses_lem : (init : Status) → run_uses (stream_uses init) (s2 ∷ []) ≡ some (s2 ∷ [])
unfolding run_uses owns without
stream_uses_lem z_ok = refl
stream_uses_lem z_stream_end = refl
stream_uses_lem z_buf_error = refl
stream_uses_lem z_error = refl

attempt_uses_lem :
    (first room : Bool) (init : Status)
    → run_uses (attempt_uses first room false init) (before first)
      ≡ some (if room then s2 ∷ [] else [])
unfolding run_uses owns without
attempt_uses_lem true true init = stream_uses_lem init
attempt_uses_lem true false init = refl
attempt_uses_lem false true init = stream_uses_lem init
attempt_uses_lem false false init = refl

module _ (z : Zlib) (realloc : ℕ → Bool) (s : Bytes) where
  unfoldable pub rounds_uses : Bool → ℕ → List Use
  rounds_uses first zero =
      attempt_uses first (realloc (buffer_size s 15)) (is_empty s) z.inflate_init
      ++ finish_uses (attempt z realloc s 15) (releases s2 ∷ [])
  rounds_uses first (suc left) =
      attempt_uses first (realloc (buffer_size s (14 - left))) (is_empty s) z.inflate_init
      ++ finish_uses (attempt z realloc s (14 - left)) (rounds_uses false left)

  unfoldable pub gzdecode_uses : List Use
  unfolding rounds_uses
  gzdecode_uses = rounds_uses true 11

  attempt-within_round :
      (factor : ℕ)
      → (if realloc (buffer_size s factor) then s2 ∷ [] else [])
        ≡ within_round (attempt z realloc s factor)
  unfolding attempt
  attempt-within_round factor = ground arith

  finish_uses_lem :
      (q : Option (Status × Bytes)) (us : List Use) (again : Option Bytes)
      → run_uses us (s2 ∷ []) ≡ some (returned again)
      → run_uses (finish_uses q us) (within_round q) ≡ some (returned (finish q again))
  unfolding run_uses owns without
  finish_uses_lem none us again h = refl
  finish_uses_lem (some (z_ok, out)) us again h = refl
  finish_uses_lem (some (z_buf_error, out)) us again h = h
  finish_uses_lem (some (z_stream_end, out)) us again h = refl
  finish_uses_lem (some (z_error, out)) us again h = refl

  round_lem :
      (first : Bool) (factor : ℕ) (us : List Use) (again : Option Bytes)
      → run_uses us (s2 ∷ []) ≡ some (returned again)
      → run_uses
          (attempt_uses first (realloc (buffer_size s factor)) false z.inflate_init
            ++ finish_uses (attempt z realloc s factor) us)
          (before first)
        ≡ some (returned (finish (attempt z realloc s factor) again))
  round_lem first factor us again h =
      run_uses-append (attempt_uses first (realloc (buffer_size s factor)) false z.inflate_init)
        (finish_uses (attempt z realloc s factor) us) (before first)
        (within_round (attempt z realloc s factor))
        (attempt_uses_lem first (realloc (buffer_size s factor)) z.inflate_init
          ∙ ap some (attempt-within_round factor))
      ∙ finish_uses_lem (attempt z realloc s factor) us again h

  rounds_uses_lem :
      (first : Bool) (left : ℕ)
      → is_empty s ≡ false
      → run_uses (rounds_uses first left) (before first) ≡ some (returned (rounds z realloc s left))
  unfolding rounds rounds_uses
  rounds_uses_lem first zero n =
      rw n (round_lem first 15 (releases s2 ∷ []) none (unfold run_uses owns without in refl))
  rounds_uses_lem first (suc left) n = rw n (
      round_lem first (14 - left) (rounds_uses false left) (rounds z realloc s left)
        (rounds_uses_lem false left n))

  -- If the text is not empty, `gzdecode` frees its buffer if it returns NULL, and else the buffer is the
  -- caller's; each stream that zlib has set up is ended in its round; and nothing is used or given back
  -- that is not owned any more.
  pub gzdecode_uses_lem :
      is_empty s ≡ false → run_uses gzdecode_uses [] ≡ some (returned (gzdecode z realloc s))
  unfolding gzdecode gzdecode_uses
  gzdecode_uses_lem = rounds_uses_lem true 11

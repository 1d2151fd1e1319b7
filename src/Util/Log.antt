-- ===== src/Util/Log.antt =====
-- `WriteLogFile` (src/util.cpp): a line of the log. The time and what `vsnprintf` makes of the format and the
-- arguments are parameters.
use as_proxyd.Common.{
  ℕ, zero, suc, ◌+◌, ◌≤◌, arith, Bool, [], ◌∷◌, ◌++◌, Option, none, some, if◌then◌else◌, Bytes,
  length, length-append, take, until_nul,
}

-- What `szStr` holds: `vsnprintf` keeps 510 characters of the text.
abbrev pub kept : Bytes → Bytes
kept text = take 510 (until_nul text)

-- `"%s\t%s\n"`.
abbrev pub log_line : Bytes → Bytes → Bytes
log_line stamp text = stamp ++ (b'\t' ∷ (kept text ++ b'\n' ∷ []))

-- The file behind the call, if it can be opened; `fprintf` to a null pointer is undefined.
unfoldable pub write_log_file : Bool → Bytes → Bytes → Bytes → Option Bytes
write_log_file opens stamp text file = if opens then some (file ++ log_line stamp text) else none

length-take : (n : ℕ) (s : Bytes) → length (take n s) ≤ n
length-take zero s = omega arith
length-take (suc n) [] = omega arith
length-take (suc n) (c ∷ s) = omega (arith, length-take n s)

-- A line of the log is 512 characters longer than its time, at most.
pub length-log_line : (stamp text : Bytes) → length (log_line stamp text) ≤ length stamp + 512
length-log_line stamp text = omega (
  arith,
  length-append stamp (b'\t' ∷ (kept text ++ b'\n' ∷ [])),
  length-append (kept text) (b'\n' ∷ []),
  length-take 510 (until_nul text),
)

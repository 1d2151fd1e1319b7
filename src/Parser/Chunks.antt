-- ===== src/Parser/Chunks.antt =====
-- The loop of `parse` (include/request_parser.hpp) over a split input.
use as_proxyd.Common.{[], ◌∷◌, ◌++◌, none, some, ◌≡◌, refl, Bytes}
use as_proxyd.Parser.{
  Machine, accepted, rejected, indeterminate, Outcome, Parsed, consume, continue_with, parse,
}

-- What parsing `ys` makes of the outcome of the chunk before it.
abbrev pub then_parse : Parsed → Bytes → Parsed
then_parse none ys = none
then_parse (some (indeterminate, rest, m)) ys = parse m ys
then_parse (some (accepted, rest, m)) ys = some (accepted, rest ++ ys, m)
then_parse (some (rejected, rest, m)) ys = some (rejected, rest ++ ys, m)

continue_with-append :
    (o : Outcome) (xs ys : Bytes)
    → ((m : Machine) → parse m (xs ++ ys) ≡ then_parse (parse m xs) ys)
    → continue_with o (xs ++ ys) (λ m. parse m (xs ++ ys))
      ≡ then_parse (continue_with o xs (λ m. parse m xs)) ys
continue_with-append none xs ys ih = refl
continue_with-append (some (indeterminate, m)) xs ys ih = ih m
continue_with-append (some (accepted, m)) xs ys ih = refl
continue_with-append (some (rejected, m)) xs ys ih = refl

-- Reading a stream in two chunks gives what reading it in one gives: the second chunk is parsed
-- from where the first one stopped, and what stands behind a finished request is left over.
pub parse-append : (m : Machine) (xs ys : Bytes) → parse m (xs ++ ys) ≡ then_parse (parse m xs) ys
unfolding parse
parse-append m [] ys = refl
parse-append m (x ∷ xs) ys = continue_with-append (consume m x) xs ys (λ m'. parse-append m' xs ys)

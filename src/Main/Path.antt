-- ===== src/Main/Path.antt =====
-- How `main` (src/main.cpp) finds its configuration, and what becomes of it.
use as_proxyd.Boost.{Boost}
use as_proxyd.Common.{
  ℕ, suc, List, until_nul, ◌<◌, true, not, [], ◌∷◌, ◌++◌, append_assoc, none, some, ◌≡◌, refl, ◌∙◌,
  ap, arith, if◌then◌else◌, ltb, Bytes, all, codes, length, until_nul-all,
}
use as_proxyd.AsObject.Store.Returned.{no_nul}
use as_proxyd.Main.{
  Os, Ran, undefined, field_text, rule_text, main_read, main_serves, exits, serves, is_slash,
  is_negative, last_slash, settings, the_control, main_with, main_at, main_in, main_from, main,
}
use as_proxyd.Util.Log.{log_line}
use as_proxyd.Query.Print.{take_front}

last_slash_free : (name : Bytes) → all (λ c. not (is_slash c)) name ≡ true → last_slash name ≡ none
unfolding last_slash
last_slash_free [] h = refl
last_slash_free (c ∷ name) h = ground (arith, last_slash_free name)

last_slash-append :
    (dir name : Bytes)
    → all (λ c. not (is_slash c)) name ≡ true
    → last_slash (dir ++ (b'/' ∷ name)) ≡ some (length dir)
unfolding last_slash
last_slash-append [] name h = rw (last_slash_free name h) refl
last_slash-append (c ∷ dir) name h = rw (last_slash-append dir name h) refl

main_in_path :
    (b : Boost) (os : Os) (dir name : Bytes)
    → all (λ c. not (is_slash c)) name ≡ true
    → main_in b os (dir ++ (b'/' ∷ name)) ≡ main_at b os (dir ++ codes "/../conf/config.ini")
unfolding main_in
main_in_path b os dir name n =
    rw (last_slash-append dir name n, main_in)
      (ap (λ s. main_at b os (s ++ codes "/../" ++ codes "conf/config.ini"))
          (take_front dir (b'/' ∷ name))
        ∙ ap (main_at b os) (append_assoc dir (codes "/../") (codes "conf/config.ini")))

-- The lines that the log has for texts, from a number on.
abbrev pub lines : Os → ℕ → List Bytes → List Bytes
lines os n [] = []
lines os n (t ∷ ts) = log_line (os.stamp n) t ∷ lines os (suc n) ts

-- What `main` does with a path for its configuration.
abbrev pub expected : Boost → Os → Bytes → Ran × List Bytes
expected b os file =
    let r = (os.reader file).1 in
    let loaded : List Bytes =
      rule_text
      ∷ field_text (codes "as_proxyd version") os.version
      ∷ field_text (codes "load config file") file
      ∷ [] in
    if not os.log_opens
    then (undefined, [])
    else if not (os.exists file)
    then (exits 1, lines os 0 ((codes "[ERROR] check config file path " ++ until_nul file) ∷ []))
    else if is_negative (os.reader file).0
    then (
      exits 1,
      lines os 0 (
          rule_text
          ∷ field_text (codes "as_proxyd version") os.version
          ∷ field_text (codes "Can't load") file
          ∷ []),
    )
    else if not (os.listens (settings r).host (settings r).port)
    then (exits 0, lines os 0 loaded)
    else (
      serves (settings r) (the_control b r),
      lines os 0 (
          loaded
          ++ field_text (codes "Starting..........") (codes "OK")
            ∷ field_text (codes "Started..........") (codes "OK")
            ∷ (field_text (codes "Stop..........") (codes "OK") ++ b'\n' ∷ [])
            ∷ []),
    )

main_at-expected : (b : Boost) (os : Os) (file : Bytes) → main_at b os file ≡ expected b os file
unfolding main_at main_with main_read main_serves
main_at-expected b os file = ground arith

-- The program is the file `name` of a directory, its path has fewer than 512 bytes and no NUL. Then `main`
-- looks for conf/config.ini in the directory above. If its log cannot be opened, the first line that it
-- writes there is undefined behaviour. Otherwise it returns 1 without that file, and if it cannot be read;
-- it returns 0 if the server cannot listen; and else it serves with the settings of the file and the
-- control that is made of them. At the end of `main`, in
-- the last case after the server's stop, the log has these lines, and no other.
pub main_cases :
    (b : Boost) (os : Os) (dir name : Bytes)
    → os.exe ≡ some (dir ++ (b'/' ∷ name))
    → all (λ c. not (is_slash c)) name ≡ true
    → no_nul (dir ++ (b'/' ∷ name)) ≡ true
    → length (dir ++ (b'/' ∷ name)) < 512
    → main b os ≡ expected b os (dir ++ codes "/../conf/config.ini")
unfolding main main_from
main_cases b os dir name e n z h =
    let short : ltb (length (dir ++ (b'/' ∷ name))) 512 ≡ true = ground arith in
    ap (main_from b os) e
    ∙ rw (short, main_from)
        (ap (main_in b os) (until_nul-all (dir ++ (b'/' ∷ name)) z) ∙ main_in_path b os dir name n)
    ∙ main_at-expected b os (dir ++ codes "/../conf/config.ini")

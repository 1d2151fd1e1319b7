-- ===== src/Main/Hosts.antt =====
-- The hosts of the cluster, from the configuration (src/main.cpp) to the control
-- (include/as_control.hpp).
use as_proxyd.Boost.{Boost, join, free_of, without}
use as_proxyd.Boost.Model.{split-determined}
use as_proxyd.Common.{
  ℕ, Bool, true, false, ◌||◌, List, [], ◌∷◌, ◌++◌, map, ◌≡◌, refl, ◌∙◌, ap, arith, if◌then◌else◌,
  ◌==◌, All, Bytes,
}
use as_proxyd.Control.{new_control}
use as_proxyd.Ini.{IniReader}
use as_proxyd.Main.{settings, clean_servers, the_control}
use as_proxyd.Parser.{is_empty}

-- A quote or white space.
abbrev is_dropped : ℕ → Bool
is_dropped c = c == b'"' || c == b'\t' || c == b'\n' || c == b'\r' || c == b' '

-- A name without them.
unfoldable pub bare : Bytes → Bytes
bare [] = []
bare (c ∷ cs) = let rest = bare cs in if is_dropped c then rest else c ∷ rest

without-append : (c : ℕ) (s t : Bytes) → without c (s ++ t) ≡ without c s ++ without c t
unfolding without
without-append c [] t = refl
without-append c (x ∷ s) t = ground (arith, without-append c s t)

cleaned : Bytes → Bytes
cleaned s = without b' ' (without b'\r' (without b'\n' (without b'\t' (without b'"' s))))

bare-cleaned : (s : Bytes) → cleaned s ≡ bare s
unfolding cleaned without bare
bare-cleaned [] = refl
bare-cleaned (c ∷ s) = ground (arith, bare-cleaned s)

bare-append : (s t : Bytes) → bare (s ++ t) ≡ bare s ++ bare t
unfolding bare
bare-append [] t = refl
bare-append (x ∷ s) t = ground (arith, bare-append s t)

bare-join : (ts : List Bytes) → bare (join b',' ts) ≡ join b',' (map bare ts)
unfolding join bare
bare-join [] = refl
bare-join (t ∷ []) = refl
bare-join (t ∷ u ∷ ts) =
    bare-append t (b',' ∷ join b',' (u ∷ ts)) ∙ ap (λ x. bare t ++ (b',' ∷ x)) (bare-join (u ∷ ts))

bare-free : (s : Bytes) → free_of b',' s ≡ true → free_of b',' (bare s) ≡ true
unfolding bare
bare-free [] h = refl
bare-free (c ∷ s) h = ground (arith, bare-free s)

map-free :
    (ts : List Bytes)
    → All (λ t. free_of b',' t ≡ true) ts
    → All (λ t. free_of b',' t ≡ true) (map bare ts)
map-free [] a = tt
map-free (t ∷ ts) (h, a) = (bare-free t h, map-free ts a)

map-is_empty : (ts : List Bytes) → is_empty ts ≡ false → is_empty (map bare ts) ≡ false
map-is_empty [] e = cc
map-is_empty (t ∷ ts) e = refl

clean_servers-bare : (b : Boost) (s : Bytes) → clean_servers b s ≡ bare s
unfolding clean_servers cleaned
clean_servers-bare b s =
    b.replace_all_lem _ b' '
    ∙ ap (without b' ') (
        b.replace_all_lem _ b'\r'
        ∙ ap (without b'\r') (
            b.replace_all_lem _ b'\n'
            ∙ ap (without b'\n')
                (b.replace_all_lem _ b'\t' ∙ ap (without b'\t') (b.replace_all_lem s b'"'))))
    ∙ bare-cleaned s

-- If the configuration lists hosts with commas between them, the control has these hosts, each without
-- the quotes and the white space that stand around or in it.
pub the_control-bare :
    (b : Boost) (r : IniReader) (hosts : List Bytes)
    → is_empty hosts ≡ false
    → All (λ t. free_of b',' t ≡ true) hosts
    → (settings r).as_servers ≡ join b',' hosts
    → (the_control b r).server_list ≡ map bare hosts
unfolding the_control new_control
the_control-bare b r hosts n a e =
    ap (b.split b',') (clean_servers-bare b (settings r).as_servers ∙ ap bare e ∙ bare-join hosts)
    ∙ split-determined b b',' (map bare hosts) (map-is_empty hosts n) (map-free hosts a)

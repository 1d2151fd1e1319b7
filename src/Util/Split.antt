-- ===== src/Util/Split.antt =====
-- `str_split` (src/util.cpp).
use as_proxyd.Common.{
  ℕ, zero, suc, ◌<◌, Bool, true, false, List, [], ◌∷◌, ◌++◌, Option, none, some, ◌≡◌, refl, ◌∙◌, ap,
  sym, arith, if◌then◌else◌, ◌==◌, ==_iff, All, Bytes, length, length-append,
}
use as_proxyd.Parser.{is_empty}
use as_proxyd.Util.{behind, find_delimiter, split_from, str_split, add_token}

-- The tokens with the delimiter between them.
unfoldable pub joined : Bytes → List Bytes → Bytes
joined d [] = []
joined d (t ∷ []) = t
joined d (t ∷ u ∷ ts) = t ++ (d ++ joined d (u ∷ ts))

abbrev Behind : Bytes → Bytes → Option Bytes → Type 0
Behind d s none = Unit
Behind d s (some rest) = s ≡ d ++ rest

behind-Behind : (d s : Bytes) → Behind d s (behind d s)
unfolding behind
behind-Behind [] s = refl
behind-Behind (c ∷ d) [] = tt
behind-Behind (c ∷ d) (x ∷ s) = step (c == x) refl (behind d s) (behind-Behind d s)
  where
    step :
        (b : Bool)
        → (c == x) ≡ b
        → (q : Option Bytes) → Behind d s q
        → Behind (c ∷ d) (x ∷ s) (if b then q else none)
    step false e q h = tt
    step true e none h = tt
    step true e (some rest) h = ap (◌∷◌ x) h ∙ ap (λ y. y ∷ (d ++ rest)) (sym ((==_iff c x).0 e))

behind-append : (d t y rest : Bytes) → behind d t ≡ some rest → behind d (t ++ y) ≡ some (rest ++ y)
unfolding behind
behind-append [] t y rest e = cc
behind-append (c ∷ d) [] y rest e = cc
behind-append (c ∷ d) (x ∷ t) y rest e = ground (arith, behind-append d t y rest)

length-positive : (d : Bytes) → is_empty d ≡ false → 0 < length d
length-positive [] e = cc
length-positive (c ∷ d) e = omega arith

behind-nil : (d : Bytes) → is_empty d ≡ false → behind d [] ≡ none
unfolding behind
behind-nil [] e = cc
behind-nil (c ∷ d) e = refl

none-append :
    (d t y : Bytes) (q : Option Bytes)
    → behind d t ≡ q
    → behind d (t ++ y) ≡ none
    → behind d t ≡ none
none-append d t y none e h = e
none-append d t y (some rest) e h = let g = behind-append d t y rest e in cc

module _ (d : Bytes) (ne : is_empty d ≡ false) where
  abbrev Found : Bytes → Option (Bytes × Bytes) → Type 0
  Found s none = Unit
  Found s (some (token, rest)) = (s ≡ token ++ (d ++ rest)) × (find_delimiter d token ≡ none)

  find_delimiter-nil : find_delimiter d [] ≡ none
  unfolding find_delimiter
  find_delimiter-nil = rw (behind-nil d ne, find_delimiter) refl

  find_delimiter-cons :
      (c : ℕ) (s : Bytes) (q : Option Bytes) (r : Option (Bytes × Bytes))
      → behind d (c ∷ s) ≡ q
      → Behind d (c ∷ s) q
      → Found s r
      → Found (c ∷ s) (elim q [
        | none ↦ elim r [ none ↦ none | some (token, rest) ↦ some (c ∷ token, rest) ]
        | some rest ↦ some ([], rest)
      ])
  unfolding find_delimiter
  find_delimiter-cons c s (some rest) r e h f = (h, find_delimiter-nil)
  find_delimiter-cons c s none none e h f = tt
  find_delimiter-cons c s none (some (token, rest)) e h (f, g) = (
    ap (◌∷◌ c) f,
    rw
        (
          none-append d (c ∷ token) (d ++ rest) (behind d (c ∷ token)) refl
              (ap (λ x. behind d (c ∷ x)) (sym f) ∙ e),
          find_delimiter,
        )
        (rw g refl),
  )

  find_delimiter-Found : (s : Bytes) → Found s (find_delimiter d s)
  unfolding find_delimiter
  find_delimiter-Found [] = rw find_delimiter-nil tt
  find_delimiter-Found (c ∷ s) =
      find_delimiter-cons c s (behind d (c ∷ s)) (find_delimiter d s) refl (behind-Behind d (c ∷ s))
        (find_delimiter-Found s)

  -- Tokens that hold no delimiter, and make up the text.
  abbrev pub IsSplit : Bytes → Option (List Bytes) → Type 0
  IsSplit s none = ⊥
  IsSplit s (some tokens) =
      (is_empty tokens ≡ false)
      × (joined d tokens ≡ s)
      × All (λ t. find_delimiter d t ≡ none) tokens

  add_token-IsSplit :
      (s token rest : Bytes) (o : Option (List Bytes))
      → s ≡ token ++ (d ++ rest)
      → find_delimiter d token ≡ none
      → IsSplit rest o
      → IsSplit s (add_token token o)
  unfolding joined
  add_token-IsSplit s token rest none e f i = i
  add_token-IsSplit s token rest (some []) e f (n, j, a) = cc
  add_token-IsSplit s token rest (some (u ∷ us)) e f (n, j, a) =
      (refl, ap (λ x. token ++ (d ++ x)) j ∙ sym e, (f, a))

  shorter : (s token rest : Bytes) → s ≡ token ++ (d ++ rest) → length rest < length s
  shorter s token rest e =
      let a = length-append token (d ++ rest) in
      let c = length-append d rest in
      let p = length-positive d ne in
      let e' : length s ≡ length (token ++ (d ++ rest)) = ap length e in omega arith

  split_from-Found :
      (fuel : ℕ) (s : Bytes) (q : Option (Bytes × Bytes))
      → find_delimiter d s ≡ q
      → Found s q
      → ((rest : Bytes) → length rest < length s → IsSplit rest (split_from fuel d rest))
      → IsSplit s (split_from (suc fuel) d s)
  unfolding split_from joined
  split_from-Found fuel s none e f ih = rw (e, split_from) (refl, refl, (e, tt))
  split_from-Found fuel s (some (token, rest)) e (f, g) ih =
      rw (e, split_from) (add_token-IsSplit s token rest _ f g (ih rest (shorter s token rest f)))

  split_from-IsSplit : (fuel : ℕ) (s : Bytes) → length s < fuel → IsSplit s (split_from fuel d s)
  split_from-IsSplit zero s h = absurd (let x : ⊥ = omega arith in x)
  split_from-IsSplit (suc fuel) s h =
      split_from-Found fuel s (find_delimiter d s) refl (find_delimiter-Found s)
        (λ rest l. split_from-IsSplit fuel rest (omega arith))

  -- With a delimiter that is not empty `str_split` ends, and gives at least one token; the tokens hold
  -- no delimiter, and with the delimiter between them they are the text.
  pub str_split-IsSplit : (s : Bytes) → IsSplit s (str_split s d)
  unfolding str_split
  str_split-IsSplit s = split_from-IsSplit (suc (length s)) s (omega arith)

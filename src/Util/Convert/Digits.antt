-- ===== src/Util/Convert/Digits.antt =====
-- The second loop of `ConvertBase` (src/util.cpp).
use as_proxyd.Common.{
  ℕ, zero, suc, ◌+◌, ◌-◌, ◌*◌, ◌/◌, ◌%◌, ◌≤◌, ◌<◌, ◌≡◌, refl, ◌∙◌, ap, arith, true, false, List, [],
  ◌∷◌, map, some, ltb, all, if◌then◌else◌, ◌==◌, Bool-cases, inl, inr,
}
use as_proxyd.Util.Convert.{digits_of}
use native.Mathlib.Nat.{mod-add-div, mod-lt, div-lt_self}

-- The character of a digit.
abbrev pub char_of : ℕ → ℕ
char_of v = if ltb v 10 then v + b'0' else (v - 10 + b'a') % 256

-- The number of digits from the lowest on.
abbrev pub low_value : ℕ → List ℕ → ℕ
low_value target [] = 0
low_value target (d ∷ ds) = d + target * low_value target ds

-- In a base from 2 on the loop ends, before its fuel does, and what it has written are the digits of the
-- number, from the lowest on.
pub digits_of_lem :
    (fuel target total : ℕ)
    → 2 ≤ target
    → total < fuel
    → (ds : List ℕ) × (digits_of fuel target total ≡ some (map char_of ds))
      × (low_value target ds ≡ total)
      × (all (λ d. ltb d target) ds ≡ true)
unfolding digits_of
digits_of_lem zero target total b h = absurd (omega arith)
digits_of_lem (suc fuel) target total b h = elim (Bool-cases (total == 0)) [
  | inl e ↦ ([], rw e refl, grind arith, refl)
  | inr e ↦
      let less : total / target < total = div-lt_self (grind arith) b in
      let small : total % target < target = mod-lt total (omega arith) in
      let (ds, q, v, a) = digits_of_lem fuel target (total / target) b (omega arith) in
      let some_target : (target == 0) ≡ false = ground arith in
      (
        total % target ∷ ds,
        rw e (rw some_target (rw q refl)),
        ap (λ x. total % target + target * x) v ∙ mod-add-div total target,
        (let t : ltb (total % target) target ≡ true = ground arith in rw t a),
      )
]

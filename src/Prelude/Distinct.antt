-- ===== src/Prelude/Distinct.antt =====
-- Lists of numbers without repetition, and how many of them fit below a bound.
use Prim.Native.Nat.{ℕ, zero, suc, ◌+◌, ◌≤◌, ◌<◌}
use mathlib.Core.Path.{◌≡◌, refl, subst}
use mathlib.Core.Logic.{inl, inr}
use mathlib.Core.Bool.{true, false, not, ◌||◌}
use mathlib.Core.List.{List, [], ◌∷◌, ◌++◌}
use native.Mathlib.Omega.{arith}
use asystem_awex.Prelude.Tests.{◌==◌, ==_iff, if◌then◌else◌, Bool-cases}
use asystem_awex.Prelude.Lists.{length, any, select, Each}

abbrev pub IsDistinct : List ℕ → Type 0
IsDistinct [] = Unit
IsDistinct (x ∷ xs) = (any (λ y. y == x) xs ≡ false) × IsDistinct xs

pub any-append_one :
    (a x : ℕ) (xs : List ℕ) → any (λ y. y == x) (xs ++ a ∷ []) ≡ (any (λ y. y == x) xs || (a == x))
any-append_one a x [] = ground (arith)
any-append_one a x (y ∷ xs) = ground (arith, any-append_one a x xs)

pub append_one-IsDistinct :
    (a : ℕ) (xs : List ℕ) → any (λ y. y == a) xs ≡ false → IsDistinct xs → IsDistinct (xs ++ a ∷ [])
append_one-IsDistinct a [] h d = (refl, tt)
append_one-IsDistinct a (x ∷ xs) h d = (
  rw (any-append_one a x xs) (ground (arith, ==_iff a x, ==_iff x a)),
  append_one-IsDistinct a xs (ground arith) d.1,
)

any-select_other :
    (x w : ℕ) (xs : List ℕ)
    → any (λ y. y == x) xs ≡ false
    → any (λ y. y == x) (select (λ y. not (y == w)) xs) ≡ false
any-select_other x w [] h = refl
any-select_other x w (y ∷ xs) h = ground (arith, any-select_other x w xs)

others-IsDistinct :
    (w : ℕ) (xs : List ℕ) → IsDistinct xs → IsDistinct (select (λ y. not (y == w)) xs)
others-IsDistinct w [] d = tt
others-IsDistinct w (x ∷ xs) d = elim (Bool-cases (x == w)) [
  | inl t ↦ rw (t, if◌then◌else◌) (others-IsDistinct w xs d.1)
  | inr t ↦ rw (t, if◌then◌else◌) (any-select_other x w xs d.0, others-IsDistinct w xs d.1)
]

none_equal :
    (w : ℕ) (xs : List ℕ) → any (λ y. y == w) xs ≡ false → select (λ y. not (y == w)) xs ≡ xs
none_equal w [] h = refl
none_equal w (x ∷ xs) h = ground (arith, none_equal w xs)

-- Leaving one number out shortens the list by one at most.
others-length :
    (w : ℕ) (xs : List ℕ) → IsDistinct xs → length xs ≤ length (select (λ y. not (y == w)) xs) + 1
others-length w [] d = omega arith
others-length w (x ∷ xs) d = elim (Bool-cases (x == w)) [
  | inl t ↦
      let e = (==_iff x w).0 t in
      let h = none_equal w xs (subst (λ z. any (λ y. y == z) xs ≡ false) e d.0) in
      rw (t, if◌then◌else◌, h) (omega arith)
  | inr t ↦ let h = others-length w xs d.1 in rw (t, if◌then◌else◌) (omega arith)
]

others-bound :
    (w : ℕ) (xs : List ℕ)
    → Each (λ x. x < suc w) xs
    → Each (λ x. x < w) (select (λ y. not (y == w)) xs)
others-bound w [] h = tt
others-bound w (x ∷ xs) h = elim (Bool-cases (x == w)) [
  | inl t ↦ rw (t, if◌then◌else◌) (others-bound w xs h.1)
  | inr t ↦ rw (t, if◌then◌else◌) (ground (arith, ==_iff x w, h.0), others-bound w xs h.1)
]

-- Distinct numbers below a bound are no more than the bound.
length-distinct : (w : ℕ) (xs : List ℕ) → IsDistinct xs → Each (λ x. x < w) xs → length xs ≤ w
length-distinct w [] d h = omega arith
length-distinct zero (x ∷ xs) d h = absurd (omega (arith, h.0))
length-distinct (suc w) (x ∷ xs) d h =
    let shorter = others-length w (x ∷ xs) d in
    let fewer =
      length-distinct w (select (λ y. not (y == w)) (x ∷ xs)) (others-IsDistinct w (x ∷ xs) d)
        (others-bound w (x ∷ xs) h) in
    omega (arith, shorter, fewer)

-- As many distinct numbers below a bound as the bound are all of them.
pub any-distinct :
    (w : ℕ) (xs : List ℕ)
    → IsDistinct xs
    → Each (λ x. x < w) xs
    → w ≤ length xs
    → (n : ℕ) → n < w
    → any (λ y. y == n) xs ≡ true
any-distinct w xs d h full n below = elim (Bool-cases (any (λ y. y == n) xs)) [
  | inl t ↦ t
  | inr t ↦ absurd (omega (arith, length-distinct w (n ∷ xs) (t, d) (below, h)))
]

-- ===== src/Prelude/Counts.antt =====
-- Lists compared by how often each number occurs as the image of an element.
use Prim.Native.Nat.{ℕ, zero, suc, ◌+◌, ◌≤◌, ◌<◌}
use mathlib.Core.Path.{◌≡◌, refl}
use mathlib.Core.Bool.{not}
use mathlib.Core.List.{List, [], ◌∷◌}
use native.Mathlib.Omega.{arith}
use asystem_awex.Prelude.Tests.{◌==◌, ==_refl, if◌then◌else◌}
use asystem_awex.Prelude.Lists.{length, select, count_by}

module _ {ℓ} {A : Type ℓ} (f : A → ℕ) where
  -- How often, and what is left.
  abbrev pub times : ℕ → List A → ℕ
  times p xs = count_by (λ x. f x == p) xs

  abbrev without : ℕ → List A → List A
  without p xs = select (λ x. not (f x == p)) xs

  times-without :
      (p q : ℕ) (xs : List A) → times q (without p xs) ≡ (if q == p then 0 else times q xs)
  times-without p q [] = ground arith
  times-without p q (x ∷ xs) = ground (arith, times-without p q xs)

  length-without : (p : ℕ) (xs : List A) → length xs ≡ times p xs + length (without p xs)
  length-without p [] = refl
  length-without p (x ∷ xs) = ground (arith, length-without p xs)

  without-le :
      (p q : ℕ) (xs ys : List A)
      → times q xs ≤ times q ys
      → times q (without p xs) ≤ times q (without p ys)
  without-le p q xs ys h = ground (arith, times-without p q xs, times-without p q ys)

  positive : (x : A) (xs : List A) → 0 < times (f x) (x ∷ xs)
  positive x xs = let self = ==_refl (f x) in rw (self, if◌then◌else◌) (omega arith)

  -- A list in which nothing occurs more often than in another is no longer.
  length-le_fuel :
      (n : ℕ) (xs ys : List A)
      → length xs ≤ n
      → ((p : ℕ) → times p xs ≤ times p ys)
      → length xs ≤ length ys
  length-le_fuel n [] ys h k = omega arith
  length-le_fuel zero (x ∷ xs) ys h k = absurd (omega arith)
  length-le_fuel (suc n) (x ∷ xs) ys h k =
      let p = f x in
      let here : 0 < times p (x ∷ xs) = positive x xs in
      let mine = length-without p (x ∷ xs) in
      let theirs = length-without p ys in
      let rest =
        length-le_fuel n (without p (x ∷ xs)) (without p ys) (omega (arith, here, mine, h))
          (λ q. without-le p q (x ∷ xs) ys (k q)) in
      omega (arith, mine, theirs, rest, k p)

  pub length-le : (xs ys : List A) → ((p : ℕ) → times p xs ≤ times p ys) → length xs ≤ length ys
  length-le xs ys k = length-le_fuel (length xs) xs ys (omega arith) k

  -- And where the lengths are equal, so is how often everything occurs.
  pub times-full :
      (xs ys : List A)
      → ((p : ℕ) → times p xs ≤ times p ys)
      → length xs ≡ length ys
      → (p : ℕ) → times p ys ≤ times p xs
  times-full xs ys k same p =
      let mine = length-without p xs in
      let theirs = length-without p ys in
      let rest = length-le (without p xs) (without p ys) (λ q. without-le p q xs ys (k q)) in
      omega (arith, mine, theirs, rest, same)

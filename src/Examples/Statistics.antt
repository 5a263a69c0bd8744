-- ===== src/Examples/Statistics.antt =====
-- The durations of a stage.
use asystem_awex.Prelude.{
  ℕ, ◌+◌, ◌<◌, ◌≤◌, ◌≡◌, refl, Bool, true, false, List, [], ◌∷◌, length, arith, if◌then◌else◌,
}
use asystem_awex.Prelude.Equality.{Text, list_eq, nat_eq, beq}
use asystem_awex.Prelude.Dict.{Dict, bucket}
use asystem_awex.Prelude.Sort.{IsSorted, nat_ord}
use asystem_awex.Common.Statistics.{compute_statistics}
use asystem_awex.Common.Statistics.Bounded.{compute_statistics-bounded}

abbrev copying : Text
copying = 99 ∷ []

abbrev two_durations : Dict Text (List ℕ)
two_durations = (copying, 4 ∷ 90 ∷ []) ∷ []

two_durations-short : (other : Text) → length (bucket two_durations other) ≤ 10000
two_durations-short other = pick (beq copying other)
  where
    pick : (t : Bool) → length {A = ℕ} (if t then 4 ∷ 90 ∷ [] else []) ≤ 10000
    pick true = omega arith
    pick false = omega arith

statistics_example :
    let after = compute_statistics two_durations 2 5 copying in
    ((other : Text) → length (bucket after other) ≤ 10000)
    × IsSorted (λ d. d) (bucket after copying)
    × (0 < length (bucket after copying))
    × (length (bucket after copying) ≤ length (bucket two_durations copying) + 1)
    × ((other : Text) → beq copying other ≡ false → bucket after other ≡ bucket two_durations other)
statistics_example = compute_statistics-bounded two_durations 2 5 copying two_durations-short

-- In the second step the largest duration goes.
the_largest_goes : bucket (compute_statistics two_durations 2 5 copying) copying ≡ 4 ∷ 5 ∷ []
unfolding compute_statistics
the_largest_goes = refl

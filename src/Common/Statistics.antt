-- ===== src/Common/Statistics.antt =====
-- `compute_statistics`, awex/util/common.py, with durations as numbers; what is only logged, the
-- average, the median, the largest and the smallest, is left out.
pub mod Bounded
use asystem_awex.Prelude.{
  ℕ, zero, suc, ◌+◌, max, Bool, true, false, ◌&&◌, List, [], ◌∷◌, ◌++◌, length, drop, is_nil, ltb,
  ◌==◌, if◌then◌else◌,
}
use asystem_awex.Prelude.Equality.{Text, list_eq, nat_eq}
use asystem_awex.Prelude.Dict.{Dict, put, bucket}
use asystem_awex.Prelude.Sort.{sort_on, nat_ord}

pub largest : List ℕ → ℕ
largest [] = 0
largest (n ∷ ns) = max n (largest ns)

-- history.pop(history.index(n))
pub pop_first : ℕ → List ℕ → List ℕ
pop_first n [] = []
pop_first n (x ∷ xs) = if x == n then xs else x ∷ pop_first n xs

-- The list of a stage after a new duration, before it is sorted.
pub recorded : (step_id duration : ℕ) → List ℕ → List ℕ
unfolding largest pop_first
recorded step_id duration old =
    let history = old ++ duration ∷ [] in
    let recent = if ltb 10000 (length history) then drop 1 history else history in
    if (step_id == 2) && ltb 1 (length recent) then pop_first (largest recent) recent else recent

unfoldable pub compute_statistics :
    Dict Text (List ℕ) → (step_id duration : ℕ) → (stage : Text) → Dict Text (List ℕ)
unfolding recorded
compute_statistics stage_history step_id duration stage =
    let history = recorded step_id duration (bucket stage_history stage) in
    if is_nil history
    then put stage_history stage history
    else put stage_history stage (sort_on (λ d. d) history)

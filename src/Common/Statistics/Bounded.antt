-- ===== src/Common/Statistics/Bounded.antt =====
-- The list of a stage stays within its bound.
use asystem_awex.Prelude.{
  ℕ, suc, ◌+◌, ◌<◌, ◌≤◌, ◌≡◌, refl, sym, ap, ◌∙◌, Bool, true, false, ◌&&◌, List, [], ◌∷◌, ◌++◌,
  length, length-append, length-drop, drop, is_nil, count_by, ltb, ltb→lt, ltb→ge, ◌==◌, arith, inl,
  inr, Bool-cases, if◌then◌else◌,
}
use asystem_awex.Prelude.Equality.{Text, list_eq, nat_eq, beq, beq_refl}
use asystem_awex.Prelude.Dict.{Dict, put, bucket, bucket-put}
use asystem_awex.Prelude.Sort.{sort_on, nat_ord, IsSorted, sort_on-IsSorted, count_by-sort_on}
use asystem_awex.Common.Statistics.{largest, pop_first, recorded, compute_statistics}

count_all : (xs : List ℕ) → count_by (λ x. true) xs ≡ length xs
count_all [] = refl
count_all (x ∷ xs) = ap suc (count_all xs)

length-sorted : (xs : List ℕ) → length (sort_on (λ d. d) xs) ≡ length xs
length-sorted xs =
    sym (count_all (sort_on (λ d. d) xs)) ∙ count_by-sort_on (λ d. d) (λ x. true) xs ∙ count_all xs

pop_first-length :
    (n : ℕ) (xs : List ℕ)
    → (length (pop_first n xs) ≤ length xs) × (length xs ≤ length (pop_first n xs) + 1)
unfolding pop_first
pop_first-length n [] = (omega arith, omega arith)
pop_first-length n (x ∷ xs) = ground (arith, pop_first-length n xs)

-- What is left of a list of up to 10001 durations once the oldest is dropped at the bound.
cut-length :
    (xs : List ℕ)
    → 0 < length xs
    → length xs ≤ 10001
    → let recent = if ltb 10000 (length xs) then drop 1 xs else xs in
      (0 < length recent) × (length recent ≤ 10000) × (length recent ≤ length xs)
cut-length xs some_left few = elim (Bool-cases (ltb 10000 (length xs))) [
  | inl over ↦ rw over (
      let cut = length-drop 1 xs in
      let long = ltb→lt 10000 (length xs) over in (omega arith, omega arith, omega arith))
  | inr within ↦
      rw within
        (let short = ltb→ge 10000 (length xs) within in (some_left, omega arith, omega arith))
]

-- A duration is popped in the second step only where another one is left.
pop-length :
    (test : Bool) (xs : List ℕ)
    → 0 < length xs
    → let popped = if test && ltb 1 (length xs) then pop_first (largest xs) xs else xs in
      (0 < length popped) × (length popped ≤ length xs)
pop-length false xs some_left = (some_left, omega arith)
pop-length true xs some_left = elim (Bool-cases (ltb 1 (length xs))) [
  | inl over ↦ rw over (
      let two = ltb→lt 1 (length xs) over in
      let popped = pop_first-length (largest xs) xs in (omega arith, omega arith))
  | inr within ↦ rw within (some_left, omega arith)
]

-- The new list has an element, at most 10000, and no more than one over the old one.
recorded-length :
    (step_id duration : ℕ) (old : List ℕ)
    → length old ≤ 10000
    → (0 < length (recorded step_id duration old))
      × (length (recorded step_id duration old) ≤ 10000)
      × (length (recorded step_id duration old) ≤ length old + 1)
unfolding recorded
recorded-length step_id duration old h =
    let all = length-append old (duration ∷ []) in
    let cut = cut-length (old ++ duration ∷ []) (omega arith) (omega arith) in
    let left =
      pop-length (step_id == 2)
        (if ltb 10000 (length (old ++ duration ∷ []))
          then drop 1 (old ++ duration ∷ [])
          else old ++ duration ∷ [])
        cut.0 in
    (left.0, omega arith, omega arith)

-- Whether the list is kept as it is or sorted, since an empty list is sorted.
put-sorted :
    (history : List ℕ) (d : Dict Text (List ℕ)) (stage : Text)
    → (if is_nil history then put d stage history else put d stage (sort_on (λ d. d) history))
      ≡ put d stage (sort_on (λ d. d) history)
put-sorted [] d stage = refl
put-sorted (x ∷ xs) d stage = refl

-- The list that a stage has afterwards.
bucket-compute_statistics :
    (history : Dict Text (List ℕ)) (step_id duration : ℕ) (stage : Text)
    → (other : Text)
    → bucket (compute_statistics history step_id duration stage) other ≡ (
        if beq stage other
        then sort_on (λ d. d) (recorded step_id duration (bucket history stage))
        else bucket history other)
unfolding compute_statistics
bucket-compute_statistics history step_id duration stage other =
    let new = recorded step_id duration (bucket history stage) in
    ap (λ d. bucket d other) (put-sorted new history stage)
    ∙ bucket-put history stage other (sort_on (λ d. d) new)

-- Let no stage of the history hold more than 10000 durations. After a duration is recorded, whatever
-- the step, no stage holds more either, the list of that stage is sorted, holds a duration, and at
-- most one more than before, and the lists of the other stages are what they were.
pub compute_statistics-bounded :
    (history : Dict Text (List ℕ)) (step_id duration : ℕ) (stage : Text)
    → ((other : Text) → length (bucket history other) ≤ 10000)
    → let after = compute_statistics history step_id duration stage in
      ((other : Text) → length (bucket after other) ≤ 10000)
      × IsSorted (λ d. d) (bucket after stage)
      × (0 < length (bucket after stage))
      × (length (bucket after stage) ≤ length (bucket history stage) + 1)
      × ((other : Text) → beq stage other ≡ false → bucket after other ≡ bucket history other)
compute_statistics-bounded history step_id duration stage h =
    let new = recorded step_id duration (bucket history stage) in
    let kept = recorded-length step_id duration (bucket history stage) (h stage) in
    let same = length-sorted new in
    let at = bucket-compute_statistics history step_id duration stage in
    let here =
      at stage
      ∙ ap (λ t. if t then sort_on (λ d. d) new else bucket history stage) (beq_refl stage) in
    let elsewhere = (λ (other : Text) (different : beq stage other ≡ false).
      at other ∙ ap (λ t. if t then sort_on (λ d. d) new else bucket history other) different) in
    (
      (λ other. elim (Bool-cases (beq stage other)) [
        | inl t ↦ rw (at other, t) (omega arith)
        | inr t ↦ rw (elsewhere other t) (h other)
      ]),
      rw here (sort_on-IsSorted (λ d. d) new),
      rw here (omega arith),
      rw here (omega arith),
      elsewhere,
    )

-- ===== src/Examples/Transport.antt =====
-- The recursive partition at four ranks.
use asystem_awex.Prelude.{
  false, ◌+◌, ◌*◌, ◌<◌, ◌≤◌, length, ℕ, ◌*◌, ◌≤◌, ◌≡◌, ◌↔◌, refl, some, List, [], ◌∷◌, true, not,
  arith,
}
use asystem_awex.Prelude.Equality.{nat_eq}
use asystem_awex.Prelude.Dict.{Dict, get}
use asystem_awex.Transport.Recursive.{partition_of, execute_recursive_partition_stream_transfer}
use asystem_awex.Transport.Recursive.Halves.{in_other_half}
use asystem_awex.Transport.Recursive.Once.{exchanged, execute_recursive_partition-once}
use asystem_awex.Transport.Recursive.Facing.{partition_of-facing}
use asystem_awex.Transport.Chunks.{local_step_size, max_len, count_chunks, run_chunks}
use asystem_awex.Transport.Chunks.Pieces.{distinct}
use asystem_awex.Transport.Chunks.Whole.{run_chunks-all}
use asystem_awex.Transport.Chunks.StepSize.{indices, local_step_size-greatest}
use asystem_awex.Transport.Comm.{validate_rank_mappings}
use asystem_awex.Transport.Comm.Mappings.{validate_rank_mappings-inverse}
use asystem_awex.Examples.Data.{some_op}

abbrev some_sends : Dict ℕ (List ℕ)
some_sends = (3, 30 ∷ 31 ∷ []) ∷ (0, 10 ∷ []) ∷ []

once_example :
    exchanged true 3 (execute_recursive_partition_stream_transfer 4 1 some_sends []) ≡ 30 ∷ 31 ∷ []
once_example =
    execute_recursive_partition-once 2 1 3 true some_sends [] (omega arith) (omega arith) refl

facing_example :
    (in_other_half (partition_of 3 4) 1 ≡ true)
    × ((partition_of 3 4).in_first_half ≡ not (partition_of 1 4).in_first_half)
unfolding partition_of
facing_example = partition_of-facing 4 1 3 (omega arith) refl

-- Two chunks of one operation each, and one that is received besides.
chunks_example :
    exchanged false 3 (run_chunks 4 1 1 2 [] some_sends ((3, 99) ∷ (2, 98) ∷ []))
    ≡ 30 ∷ 99 ∷ 31 ∷ []
unfolding count_chunks max_len distinct
chunks_example =
    run_chunks-all 2 1 3 1 false [] some_sends ((3, 99) ∷ (2, 98) ∷ []) (omega arith) (omega arith)
      refl refl refl 2 (omega arith) (omega arith)

-- Two elements of two bytes each: four such operations fit in 17 bytes.
step_example :
    let step = local_step_size 17 (some_op ∷ []) in
    let bytes = 2 * length (indices some_op.train_slices) in
    (0 < step) × (1 < step → step * bytes ≤ 17) × (17 < (step + 1) * bytes)
step_example = local_step_size-greatest 17 some_op [] (omega arith, (omega arith, tt))

abbrev to_infer : Dict ℕ ℕ
to_infer = (2, 0) ∷ (3, 1) ∷ []

abbrev to_train : Dict ℕ ℕ
to_train = (0, 2) ∷ (1, 3) ∷ []

inverse_example : (get to_infer 3 ≡ some 1) ↔ (get to_train 1 ≡ some 3)
unfolding validate_rank_mappings
inverse_example = validate_rank_mappings-inverse to_infer to_train refl 3 1

-- ===== src/Transport/Chunks/Whole.antt =====
-- All chunks together are the whole.
use asystem_awex.Prelude.{
  append-nil, append_assoc, length-drop, take-append-drop, ℕ, zero, suc, ◌+◌, ◌-◌, ◌*◌, ◌/◌, ◌^◌,
  max, ◌≤◌, ◌<◌, ◌≡◌, refl, sym, ap, ap₂, ◌∙◌, Bool, true, false, List, [], ◌∷◌, ◌++◌, length, take,
  drop, arith, ◌==◌, if◌then◌else◌,
}
use asystem_awex.Prelude.Equality.{nat_eq}
use asystem_awex.Prelude.Dict.{Dict, bucket, push, bucket-push}
use asystem_awex.Transport.Recursive.Once.{
  exchanged, exchanged-append, execute_recursive_partition-once,
}
use asystem_awex.Transport.Chunks.{
  max_len, count_chunks, chunk, chunk_ops, chunk_recv_ops, add_self_recv, run_chunks_from,
  run_chunks,
}
use asystem_awex.Transport.Chunks.Pieces.{
  distinct, next_chunk, take_all, bucket-chunk_ops, max_len-bucket, enough_chunks,
}

module _ {ℓ} {A : Type ℓ} where
  -- The operations from a rank among those that the first chunk receives besides.
  abbrev pub self_recv_from : ℕ → List (ℕ × A) → List A
  self_recv_from j [] = []
  self_recv_from j ((rank, op) ∷ built) =
      if rank == j then op ∷ self_recv_from j built else self_recv_from j built

  joined :
      (here : Bool) (xs : List A) (op : A) (later : List A)
      → (if here then xs ++ op ∷ [] else xs) ++ later ≡ xs ++ (if here then op ∷ later else later)
  joined true xs op later = append_assoc xs (op ∷ []) later
  joined false xs op later = refl

  bucket-add_self_recv :
      (d : Dict ℕ (List A)) (built : List (ℕ × A)) (j : ℕ)
      → bucket (add_self_recv d built) j ≡ bucket d j ++ self_recv_from j built
  unfolding add_self_recv
  bucket-add_self_recv d [] j = sym (append-nil (bucket d j))
  bucket-add_self_recv d ((rank, op) ∷ built) j =
      bucket-add_self_recv (push d rank op) built j
      ∙ ap (λ xs. xs ++ self_recv_from j built) (bucket-push d rank j op)
      ∙ joined (rank == j) (bucket d j) op (self_recv_from j built)

module _ {ℓ} {A : Type ℓ} (k i j step : ℕ) (sends : Bool) (send recv : Dict ℕ (List A))
    (built : List (ℕ × A)) (hi : i < 2 ^ k) (hj : j < 2 ^ k) (differ : (i == j) ≡ false)
    (one_send : distinct send ≡ true) (one_recv : distinct recv ≡ true) where
  -- What the rank has for the other, and what it receives from it besides.
  abbrev planned : List A
  planned = bucket (if sends then send else recv) j

  abbrev besides : (way : Bool) → List A
  besides way = if way then [] else self_recv_from j built

  later_chunk :
      (way : Bool) (idx : ℕ)
      → (idx == 0) ≡ false
      → bucket (if way then chunk_ops step idx send else chunk_recv_ops step built idx recv) j
        ≡ chunk step idx (bucket (if way then send else recv) j)
  unfolding chunk_recv_ops
  later_chunk true idx h = bucket-chunk_ops step idx send j one_send
  later_chunk false idx h =
      ap
        (λ b.
          bucket
            (if b then add_self_recv (chunk_ops step idx recv) built else chunk_ops step idx recv)
            j)
        h
      ∙ bucket-chunk_ops step idx recv j one_recv

  first_chunk :
      (way : Bool)
      → bucket (if way then chunk_ops step 0 send else chunk_recv_ops step built 0 recv) j
        ≡ take step (bucket (if way then send else recv) j) ++ besides way
  unfolding chunk_recv_ops chunk
  first_chunk true =
      bucket-chunk_ops step 0 send j one_send
      ∙ ap (λ n. take step (drop n (bucket send j))) zero_chunks
      ∙ sym (append-nil (take step (bucket send j)))
    where
      zero_chunks : 0 * step ≡ 0
      zero_chunks = omega arith
  first_chunk false =
      bucket-add_self_recv (chunk_ops step 0 recv) built j
      ∙ ap (λ xs. xs ++ self_recv_from j built)
          (bucket-chunk_ops step 0 recv j one_recv
            ∙ ap (λ n. take step (drop n (bucket recv j))) zero_chunks)
    where
      zero_chunks : 0 * step ≡ 0
      zero_chunks = omega arith

  run_chunks_from-all :
      (idx left : ℕ)
      → (idx == 0) ≡ false
      → exchanged sends j (run_chunks_from (2 ^ k) i step send recv built idx left)
        ≡ take (left * step) (drop (idx * step) planned)
  unfolding run_chunks_from
  run_chunks_from-all idx zero h =
      let none : 0 ≡ 0 * step = omega arith in ap (λ n. take n (drop (idx * step) planned)) none
  run_chunks_from-all idx (suc left) h =
      exchanged-append sends j _ _
      ∙ ap₂ ◌++◌
          (execute_recursive_partition-once k i j sends (chunk_ops step idx send)
              (chunk_recv_ops step built idx recv) hi hj differ
            ∙ later_chunk sends idx h)
          (run_chunks_from-all (idx + 1) left (ground arith))
      ∙ next_chunk step idx left planned

  planned_fits :
      (way : Bool)
      → length (bucket (if way then send else recv) j) ≤ max (max_len send) (max_len recv)
  planned_fits true = omega (arith, max_len-bucket send j)
  planned_fits false = omega (arith, max_len-bucket recv j)

  -- The first chunk, what is received besides, and the rest.
  run_chunks_in_order :
      (n : ℕ)
      → 0 < step
      → count_chunks step send recv ≤ n
      → exchanged sends j (run_chunks (2 ^ k) i step n send recv built)
        ≡ (take step planned ++ besides sends) ++ drop step planned
  unfolding run_chunks run_chunks_from count_chunks
  run_chunks_in_order zero positive enough = absurd (omega arith)
  run_chunks_in_order (suc n) positive enough =
      let few : (max (max_len send) (max_len recv) + step - 1) / step ≤ suc n =
        omega (arith, enough) in
      let fits = enough_chunks step (max (max_len send) (max_len recv)) (suc n) positive few in
      let one : (0 + 1) * step ≡ step = omega arith in
      let size = length-drop step planned in
      exchanged-append sends j _ _
      ∙ ap₂ ◌++◌
          (execute_recursive_partition-once k i j sends (chunk_ops step 0 send)
              (chunk_recv_ops step built 0 recv) hi hj differ
            ∙ first_chunk sends)
          (run_chunks_from-all (0 + 1) n refl
            ∙ ap (λ m. take (n * step) (drop m planned)) one
            ∙ take_all (n * step) (drop step planned)
                (omega (arith, size, fits, planned_fits sends)))

  whole_again : (xs : List A) → (take step xs ++ []) ++ drop step xs ≡ xs
  whole_again xs =
      ap (λ ys. ys ++ drop step xs) (append-nil (take step xs)) ∙ take-append-drop step xs

  placed :
      (way : Bool)
      → (take step (bucket (if way then send else recv) j) ++ besides way)
          ++ drop step (bucket (if way then send else recv) j)
        ≡ (if way
            then bucket send j
            else take step (bucket recv j) ++ self_recv_from j built ++ drop step (bucket recv j))
  placed true = whole_again (bucket send j)
  placed false = refl

  -- With 2 ^ k ranks, for two different ranks below 2 ^ k, with dicts of operations whose keys
  -- differ, a positive step and at least as many chunks as the one rank counts: over all chunks and
  -- all rounds, the operations that it sends to the other are those that it has for that rank, in
  -- their order and each once. Those that it receives from it are also those that it has for it, in
  -- their order and each once, and behind the first chunk of them come the operations from that rank
  -- that the first chunk receives besides.
  pub run_chunks-all :
      (n : ℕ)
      → 0 < step
      → count_chunks step send recv ≤ n
      → exchanged sends j (run_chunks (2 ^ k) i step n send recv built) ≡ (
          if sends
          then bucket send j
          else take step (bucket recv j) ++ self_recv_from j built ++ drop step (bucket recv j))
  run_chunks-all n positive enough = run_chunks_in_order n positive enough ∙ placed sends

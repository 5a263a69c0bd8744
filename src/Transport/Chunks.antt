-- ===== src/Transport/Chunks.antt =====
-- The chunks of `_run_chunked`, awex/transfer/nccl_stream_batch.py: how many operations of each peer
-- a chunk takes, how many chunks there are, and which operations a chunk takes.
-- The step and the number of chunks are reduced over all ranks by torch, to the least and to the
-- greatest; here they are arguments, and the theorems ask of them what the reductions give. What a
-- rank receives besides in the first chunk, from other training ranks on its own device, is an
-- argument: a list of ranks with an operation each.
pub mod Pieces
pub mod Whole
pub mod StepSize
use asystem_awex.Prelude.{
  ℕ, ◌==◌, zero, suc, ◌+◌, ◌-◌, ◌*◌, ◌/◌, max, List, [], ◌∷◌, ◌++◌, length, take, drop, is_nil,
  if◌then◌else◌,
}
use asystem_awex.Prelude.Equality.{nat_eq}
use asystem_awex.Prelude.Dict.{Dict, push}
use asystem_awex.Transport.Recursive.{Batch, execute_recursive_partition_stream_transfer}
use asystem_awex.Plan.Shards.{Slice, CommunicationOperation}

-- sliced_numel: the product of max(stop - start, 1)
pub sliced_numel : List Slice → ℕ
sliced_numel [] = 1
sliced_numel ((start, stop) ∷ slices) = max (stop - start) 1 * sliced_numel slices

-- The import of dtype_to_size fails, and what is raised is dropped.
elem_size : ℕ
elem_size = 2

pub per_op_bytes : CommunicationOperation → ℕ
unfolding sliced_numel elem_size
per_op_bytes op = max (sliced_numel op.train_slices * elem_size) 1

-- The step of a rank with a sample operation, and of one without.
pub local_step_size : (chunk_bytes : ℕ) → List CommunicationOperation → ℕ
unfolding per_op_bytes
local_step_size chunk_bytes [] = 1
local_step_size chunk_bytes (sample_op ∷ ops) = max 1 (chunk_bytes / per_op_bytes sample_op)

module _ {ℓ} {A : Type ℓ} where
  -- max((len(v) for v in per_peer.values()), default=0)
  unfoldable pub max_len : Dict ℕ (List A) → ℕ
  max_len [] = 0
  max_len ((peer, ops) ∷ per_peer) = max (length ops) (max_len per_peer)

  unfoldable pub count_chunks : (step_size : ℕ) (send_per_peer recv_per_peer : Dict ℕ (List A)) → ℕ
  unfolding max_len
  count_chunks step_size send_per_peer recv_per_peer =
      max 1 ((max (max_len send_per_peer) (max_len recv_per_peer) + step_size - 1) / step_size)

  -- ops[start:end]
  pub chunk : (step_size chunk_idx : ℕ) → List A → List A
  chunk step_size chunk_idx ops = take step_size (drop (chunk_idx * step_size) ops)

  -- chunk_send_p2p_ops, and the same for recv: the peers with operations in the chunk.
  pub chunk_ops : (step_size chunk_idx : ℕ) → Dict ℕ (List A) → Dict ℕ (List A)
  unfolding chunk
  chunk_ops step_size chunk_idx [] = []
  chunk_ops step_size chunk_idx ((peer, ops) ∷ per_peer) =
      let rest = chunk_ops step_size chunk_idx per_peer in
      let sub = chunk step_size chunk_idx ops in if is_nil sub then rest else (peer, sub) ∷ rest

  -- for actual_send_rank, op, p2p_op in local_self_recv_built
  pub add_self_recv : Dict ℕ (List A) → List (ℕ × A) → Dict ℕ (List A)
  add_self_recv chunk_recv [] = chunk_recv
  add_self_recv chunk_recv ((actual_send_rank, op) ∷ built) =
      add_self_recv (push chunk_recv actual_send_rank op) built

  -- What a chunk receives.
  pub chunk_recv_ops :
      (step_size : ℕ) (local_self_recv_built : List (ℕ × A)) (chunk_idx : ℕ)
      → Dict ℕ (List A)
      → Dict ℕ (List A)
  unfolding chunk_ops add_self_recv
  chunk_recv_ops step_size built chunk_idx recv =
      let ops = chunk_ops step_size chunk_idx recv in
      if chunk_idx == 0 then add_self_recv ops built else ops

  -- for chunk_idx in range(n_chunks), from an index on
  pub run_chunks_from :
      (world_size transfer_rank step_size : ℕ) (send_per_peer recv_per_peer : Dict ℕ (List A))
      (local_self_recv_built : List (ℕ × A)) (chunk_idx left : ℕ)
      → List (Batch A)
  unfolding chunk_recv_ops
  run_chunks_from world_size transfer_rank step_size send recv built chunk_idx zero = []
  run_chunks_from world_size transfer_rank step_size send recv built chunk_idx (suc left) =
      execute_recursive_partition_stream_transfer world_size transfer_rank
        (chunk_ops step_size chunk_idx send) (chunk_recv_ops step_size built chunk_idx recv)
      ++ run_chunks_from world_size transfer_rank step_size send recv built (chunk_idx + 1) left

  pub run_chunks :
      (world_size transfer_rank step_size n_chunks : ℕ)
      (send_per_peer recv_per_peer : Dict ℕ (List A)) (local_self_recv_built : List (ℕ × A))
      → List (Batch A)
  unfolding run_chunks_from
  run_chunks world_size transfer_rank step_size n_chunks send recv built =
      run_chunks_from world_size transfer_rank step_size send recv built 0 n_chunks

-- ===== src/Transport/Recursive.antt =====
-- `execute_recursive_partition_stream_transfer` and `_execute_ops_concurrent` of
-- NcclColocateStreamBatchTransport, awex/transfer/nccl_stream_batch.py: the batches that one rank
-- hands to `batch_isend_irecv`, in the order of the calls. Waiting, tracing and logging are left
-- out; the number of operations that is returned is only logged.
pub mod Halves
pub mod Once
pub mod Facing
use asystem_awex.Prelude.{
  ℕ, zero, suc, ◌+◌, ◌-◌, ◌*◌, ◌/◌, ◌^◌, Bool, true, false, not, List, [], ◌∷◌, ◌++◌, is_nil, range,
  ltb, if◌then◌else◌,
}
use asystem_awex.Prelude.Equality.{nat_eq}
use asystem_awex.Prelude.Dict.{Dict, bucket}

-- One call of `batch_isend_irecv`: its direction, its peer and its operations.
pub record Batch {ℓ} (A : Type ℓ) : Type ℓ where
  pub sends : Bool
  pub peer : ℕ
  pub ops : List A

-- The partition of a rank in a round.
pub record Partition : Type 0 where
  pub in_first_half : Bool
  pub other_half_start : ℕ
  pub other_half_end : ℕ

unfoldable pub partition_of : (transfer_rank partition_size : ℕ) → Partition
partition_of transfer_rank partition_size =
    let half = partition_size / 2 in
    let partition_base = transfer_rank / partition_size * partition_size in
    let partition_end = partition_base + partition_size in
    let offset_in_partition = transfer_rank - partition_base in
    if ltb offset_in_partition half
    then record {
      in_first_half = true;
      other_half_start = partition_base + half;
      other_half_end = partition_end;
    }
    else record {
      in_first_half = false;
      other_half_start = partition_base;
      other_half_end = partition_base + half;
    }

-- range(other_half_start, other_half_end)
pub other_half : Partition → List ℕ
other_half p = range p.other_half_start (p.other_half_end - p.other_half_start)

-- int(math.log2(n)), by repeated halving; n halvings are enough.
pub log2_on : (fuel n : ℕ) → ℕ
log2_on zero n = 0
log2_on (suc fuel) n = let rest = log2_on fuel (n / 2) in if ltb n 2 then 0 else 1 + rest

pub int_log2 : ℕ → ℕ
unfolding log2_on
int_log2 n = log2_on n n

module _ {ℓ} {A : Type ℓ} where
  -- One batch for every peer that has operations.
  pub execute_ops_concurrent : Bool → Dict ℕ (List A) → List ℕ → List (Batch A)
  execute_ops_concurrent sends ops_dict [] = []
  execute_ops_concurrent sends ops_dict (peer_rank ∷ peer_ranks) =
      let rest = execute_ops_concurrent sends ops_dict peer_ranks in
      let found = bucket ops_dict peer_rank in
      if is_nil found then rest else record { sends = sends; peer = peer_rank; ops = found } ∷ rest

  -- The two phases of a round: the first half sends and then receives, the second half receives
  -- and then sends.
  pub execute_round : (send recv : Dict ℕ (List A)) → Partition → List (Batch A)
  unfolding other_half
  execute_round send recv p =
      if p.in_first_half
      then execute_ops_concurrent true send (other_half p)
        ++ execute_ops_concurrent false recv (other_half p)
      else execute_ops_concurrent false recv (other_half p)
        ++ execute_ops_concurrent true send (other_half p)

  -- The rounds that are left, from `round_idx` on.
  pub execute_rounds :
      (world_size transfer_rank : ℕ) (send recv : Dict ℕ (List A)) (round_idx left : ℕ)
      → List (Batch A)
  execute_rounds world_size transfer_rank send recv round_idx zero = []
  execute_rounds world_size transfer_rank send recv round_idx (suc left) =
      execute_round send recv (partition_of transfer_rank (world_size / 2 ^ round_idx))
      ++ execute_rounds world_size transfer_rank send recv (round_idx + 1) left

  pub execute_recursive_partition_stream_transfer :
      (world_size transfer_rank : ℕ) (send recv : Dict ℕ (List A)) → List (Batch A)
  execute_recursive_partition_stream_transfer world_size transfer_rank send recv =
      execute_rounds world_size transfer_rank send recv 0 (int_log2 world_size)

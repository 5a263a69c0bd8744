-- ===== src/Plan/Shards.antt =====
-- The data of awex/transfer/transfer_plan.py, and TransferPlanBuilder's `_compute_shard_transfer_rank`
-- and `_create_shard_offset_for_replica`.
-- The builder reuses one list, `reused_shape_obj`, as the buffer for every tuple that it makes. Each
-- entry that is read has been written just before, so what the model keeps of the buffer is its
-- length: a write behind its end is the IndexError.
use asystem_awex.Prelude.{
  ℕ, zero, suc, ◌+◌, ◌*◌, ◌/◌, Bool, true, false, not, Option, none, some, List, [], ◌∷◌, length,
  is_nil, ◌==◌, leb, if◌then◌else◌,
}
use asystem_awex.Prelude.Result.{
  Result, ok, err, value_error, index_error, assertion_error, guard, ◌>>=◌, ◌>>◌, collect,
}
use asystem_awex.Meta.{ParameterShardMeta, ParameterReplicaMeta}

-- slice(start, stop), as (start, stop)
abbrev pub Slice : Type 0
Slice = ℕ × ℕ

pub record CommunicationOperation : Type 0 where
  pub send_rank : ℕ
  pub send_shard_meta : ParameterShardMeta
  pub send_offset : List ℕ
  pub recv_rank : ℕ
  pub recv_shard_meta : ParameterShardMeta
  pub recv_offset : List ℕ
  pub overlap_shape : List ℕ
  pub train_slices : List Slice
  pub inf_slices : List Slice

pub record ShardOffset : Type 0 where
  pub shard : ParameterShardMeta
  pub start_offset : List ℕ
  pub end_offset : List ℕ
  pub shape : List ℕ
  pub rank : ℕ

pub record OverlapRegion : Type 0 where
  pub inference_shard : ShardOffset
  pub training_shard : ShardOffset
  pub overlap_start : List ℕ
  pub overlap_end : List ℕ

-- The fields of TransferPlanBuilder that its methods read.
pub record Builder : Type 0 where
  pub infer_world_size : ℕ
  pub train_world_size : ℕ
  pub infer_instance_world_size : ℕ
  pub num_infer_engines : ℕ
  pub strict_param_key_match : Bool

-- TransferPlanBuilder.__init__
unfoldable pub make_builder : ℕ → ℕ → ℕ → Bool → Result Builder
make_builder infer_world_size train_world_size num_infer_engines strict = do
  guard (not (num_infer_engines == 0)) value_error
  ok (record {
    infer_world_size = infer_world_size;
    train_world_size = train_world_size;
    infer_instance_world_size = infer_world_size / num_infer_engines;
    num_infer_engines = num_infer_engines;
    strict_param_key_match = strict;
  })

unfoldable pub compute_shard_transfer_rank : Builder → ParameterShardMeta → ℕ → Bool → Result ℕ
compute_shard_transfer_rank b shard engine_rank true =
    ok (shard.global_rank + engine_rank * b.infer_instance_world_size)
compute_shard_transfer_rank b shard engine_rank false = do
  guard (engine_rank == 0) assertion_error
  ok (shard.global_rank + b.infer_world_size)

-- Point by point; the callers have compared the lengths.
abbrev pub add_each : List ℕ → List ℕ → List ℕ
add_each (a ∷ xs) (b ∷ ys) = (a + b) ∷ add_each xs ys
add_each _ _ = []

-- `reused_shape_obj or [None] * len(shards[0].shape)`, as the length of the buffer
unfoldable pub buffer_width : ℕ → List ParameterShardMeta → Result ℕ
buffer_width (suc width) shards = ok (suc width)
buffer_width zero [] = err index_error
buffer_width zero (shard ∷ shards) = ok (length shard.shape)

-- `global_transfer_rank is not None and shard_transfer_rank != global_transfer_rank`
abbrev pub skips : Option ℕ → ℕ → Bool
skips none rank = false
skips (some wanted) rank = not (rank == wanted)

-- The body of the loop over the shards.
unfoldable pub shard_offset :
    Builder → ℕ → Bool → Option ℕ → ℕ → ParameterShardMeta → Result (List ShardOffset)
unfolding compute_shard_transfer_rank
shard_offset b engine_rank is_infer wanted width shard = do
  guard (not (is_nil shard.global_offset)) value_error
  guard (length shard.global_offset == length shard.shape) value_error
  rank ← compute_shard_transfer_rank b shard engine_rank is_infer
  if skips wanted rank then ok [] else do
    guard (leb (length shard.global_offset) width) index_error
    ok (
        record {
          shard = shard;
          start_offset = shard.global_offset;
          end_offset = add_each shard.global_offset shard.shape;
          shape = shard.shape;
          rank = rank;
        }
        ∷ [])

-- for shard in replica.shards
unfoldable pub shard_offsets :
    Builder → ℕ → Bool → Option ℕ → ℕ → List ParameterShardMeta → Result (List ShardOffset)
unfolding shard_offset
shard_offsets b engine_rank is_infer wanted width shards =
    collect (shard_offset b engine_rank is_infer wanted width) shards

unfoldable pub create_shard_offset_for_replica :
    Builder → ParameterReplicaMeta → ℕ → Bool → Option ℕ → ℕ → Result (List ShardOffset)
unfolding shard_offsets buffer_width
create_shard_offset_for_replica b replica engine_rank is_infer wanted reused = do
  width ← buffer_width reused replica.shards
  guard (not (is_nil replica.shards)) value_error
  shard_offsets b engine_rank is_infer wanted width replica.shards

-- ===== src/Plan/Build.antt =====
-- `_build_parameter_communication_plan` and `build_weights_mapping_operations` of
-- TransferPlanBuilder, awex/transfer/transfer_plan.py.
pub mod Valid
pub mod Pair
pub mod Counted
pub mod Parameter
pub mod Mapping
pub mod Delivery
use asystem_awex.Prelude.{
  ℕ, zero, suc, ◌+◌, ◌%◌, ◌≡◌, Bool, true, false, not, ◌||◌, Option, none, some, List, [], ◌∷◌,
  ◌++◌, map, length, is_nil, get_elem?, select, ◌==◌, leb, ltb, if◌then◌else◌,
}
use asystem_awex.Prelude.Equality.{Text, list_eq, nat_eq}
use asystem_awex.Prelude.Dict.{Dict, get, has, keys, put}
use asystem_awex.Prelude.Sort.{sort_on, list_ord, nat_ord}
use asystem_awex.Prelude.Result.{
  Result, ok, err, Fault, value_error, index_error, key_error, guard, ◌>>=◌, ◌>>◌, collect,
}
use asystem_awex.Common.Keys.{key_mismatch}
use asystem_awex.Meta.{ParameterShardMeta, ParameterReplicaMeta, ParameterMeta}
use asystem_awex.Plan.Shards.{CommunicationOperation, Builder, create_shard_offset_for_replica}
use asystem_awex.Plan.Overlap.{find_overlapping_regions, build_region_communication_plan}

-- `len(training_replica.shards[0].shape)`, the length of the buffer
pub first_dims : List ParameterShardMeta → Result ℕ
first_dims [] = err index_error
first_dims (shard ∷ shards) = ok (length shard.shape)

-- `global_transfer_rank if is_infer_rank else None`, and the same for is_train_rank
pub infer_only : Builder → Option ℕ → Option ℕ
infer_only b none = none
infer_only b (some rank) = if ltb rank b.infer_world_size then some rank else none

pub train_only : Builder → Option ℕ → Option ℕ
train_only b none = none
train_only b (some rank) = if ltb rank b.infer_world_size then none else some rank

-- The body of the loop over the assignments: one inference replica and its training replica.
pub pair_plan :
    Builder
    → Option ℕ
    → ℕ
    → ParameterReplicaMeta
    → ParameterReplicaMeta
    → Result (List CommunicationOperation)
pair_plan b global_transfer_rank engine_rank inference_replica training_replica = do
  reused ← first_dims training_replica.shards
  inference ←
      create_shard_offset_for_replica b inference_replica engine_rank true
        (infer_only b global_transfer_rank) reused
  training ←
      create_shard_offset_for_replica b training_replica 0 false (train_only b global_transfer_rank)
        reused
  regions ← find_overlapping_regions inference training
  collect (build_region_communication_plan b reused) regions

-- The inference replicas with their engines: every engine holds the same replicas.
pub inference_replicas :
    (engine_rank engines : ℕ) → List ParameterReplicaMeta → List (ℕ × ParameterReplicaMeta)
inference_replicas engine_rank zero replicas = []
inference_replicas engine_rank (suc engines) replicas =
    map (λ replica. (engine_rank, replica)) replicas
    ++ inference_replicas (engine_rank + 1) engines replicas

-- training_replicas[inf_replica_idx % num_training_replicas]
pub assigned_training : List ParameterReplicaMeta → ℕ → Result ParameterReplicaMeta
assigned_training training_replicas inf_replica_idx =
    elim (get_elem? training_replicas (inf_replica_idx % length training_replicas)) [
      | none ↦ err index_error
      | some replica ↦ ok replica
    ]

-- The loop over the assignments, which are computed on the way: the round robin by index.
pub assigned_plans :
    Builder
    → Option ℕ
    → List ParameterReplicaMeta
    → ℕ
    → List (ℕ × ParameterReplicaMeta)
    → Result (List CommunicationOperation)
assigned_plans b wanted training_replicas inf_replica_idx [] = ok []
assigned_plans b wanted training_replicas inf_replica_idx ((engine_rank, replica) ∷ rest) =
    assigned_training training_replicas inf_replica_idx >>= λ training_replica.
    pair_plan b wanted engine_rank replica training_replica >>= λ ops.
    assigned_plans b wanted training_replicas (inf_replica_idx + 1) rest >>= λ more.
    ok (ops ++ more)

pub build_parameter_communication_plan :
    Builder → Option ℕ → ParameterMeta → ParameterMeta → Result (List CommunicationOperation)
build_parameter_communication_plan b wanted inference_meta training_meta = do
  let inference = inference_replicas 0 b.num_infer_engines inference_meta.replicas
  let training = training_meta.replicas
  guard (not (is_nil inference || is_nil training)) value_error
  assigned_plans b wanted training 0 inference

-- {meta.name: meta for meta in metas}
unfoldable pub meta_dict : Dict Text ParameterMeta → List ParameterMeta → Dict Text ParameterMeta
meta_dict d [] = d
meta_dict d (meta ∷ metas) = meta_dict (put d meta.name meta) metas

pub require_meta : Dict Text ParameterMeta → Text → Result ParameterMeta
require_meta d name = elim (get d name) [ none ↦ err key_error | some meta ↦ ok meta ]

-- The body of the loop over `sorted(common_params)`
pub named_plan :
    Builder
    → Option ℕ
    → Dict Text ParameterMeta
    → Dict Text ParameterMeta
    → Text
    → Result (List CommunicationOperation)
named_plan b wanted infer train name = do
  inference_meta ← require_meta infer name
  training_meta ← require_meta train name
  build_parameter_communication_plan b wanted inference_meta training_meta

pub common_params : Dict Text ParameterMeta → Dict Text ParameterMeta → List Text
common_params infer train = sort_on (λ name. name) (select (has train) (keys infer))

pub build_weights_mapping_operations :
    Builder
    → List ParameterMeta
    → List ParameterMeta
    → Option ℕ
    → Result (List CommunicationOperation)
build_weights_mapping_operations b inference_weights_meta training_weights_meta wanted =
    if is_nil inference_weights_meta || is_nil training_weights_meta then ok [] else do
      let infer = meta_dict [] inference_weights_meta
      let train = meta_dict [] training_weights_meta
      guard (not (key_mismatch b.strict_param_key_match (keys infer) (keys train))) value_error
      collect (named_plan b wanted infer train) (common_params infer train)

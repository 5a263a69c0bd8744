-- ===== src/Plan/Local.antt =====
-- `_group_operations_by_rank` and `build_local_transfer_plan` of TransferPlanBuilder, and
-- `TransferPlan`, awex/transfer/transfer_plan.py. The logging and the debug dumps are left out.
pub mod Groups
pub mod Match
use asystem_awex.Prelude.{
  ℕ, ◌+◌, ◌*◌, ◌≡◌, Bool, true, false, not, Option, none, some, List, [], ◌∷◌, map, length, is_nil,
  select, all, sum_by, ◌==◌, leb, ltb, if◌then◌else◌,
}
use asystem_awex.Prelude.Equality.{Text, nat_eq}
use asystem_awex.Prelude.Dict.{Dict, group_by, values}
use asystem_awex.Prelude.Sort.{sort_on, list_ord, nat_ord, pair_ord}
use asystem_awex.Prelude.Result.{Result, ok, assertion_error, guard, ◌>>=◌, ◌>>◌}
use asystem_awex.Meta.{ParameterMeta}
use asystem_awex.Plan.Shards.{CommunicationOperation, Builder}
use asystem_awex.Plan.Build.{build_weights_mapping_operations}

abbrev pub Grouped : Type 0
Grouped = Dict ℕ (List CommunicationOperation)

pub record TransferPlan : Type 0 where
  pub operations : Grouped
  pub inter_operations : Grouped

-- TransferPlan.__post_init__: the two fields name one dict. Where both are given and differ,
-- `inter_operations` is taken; where they are equal, either may be.
pub post_init : Grouped → Grouped → TransferPlan
post_init operations inter_operations =
    if is_nil inter_operations
    then record { operations = operations; inter_operations = operations }
    else record { operations = inter_operations; inter_operations = inter_operations }

-- The key of the sort within a group: the parameter's name, then the two offsets.
abbrev pub op_key : CommunicationOperation → Text × (List ℕ × List ℕ)
op_key op = (op.send_shard_meta.name, (op.send_offset, op.recv_offset))

sort_group : ℕ × List CommunicationOperation → ℕ × List CommunicationOperation
sort_group g = (g.0, sort_on op_key g.1)

-- The keys of a dict differ, so its items, sorted by their keys, are the dict that is rebuilt from
-- the sorted keys.
pub group_operations_by_rank : (CommunicationOperation → ℕ) → List CommunicationOperation → Grouped
unfolding sort_group
group_operations_by_rank key operations =
    sort_on (λ g. g.0) (map sort_group (group_by key operations))

count_shards : List ParameterMeta → ℕ
count_shards metas =
    sum_by (λ param. sum_by (λ replica. length replica.shards) param.replicas) metas

prune_threshold : ℕ
prune_threshold = 10000

-- For a large model only the operations of the rank are built.
wanted_rank : Builder → List ParameterMeta → List ParameterMeta → ℕ → Option ℕ
unfolding count_shards prune_threshold
wanted_rank b inference_weights_meta training_weights_meta rank =
    let num_infer_shards = count_shards inference_weights_meta * b.num_infer_engines in
    let num_train_shards = count_shards training_weights_meta in
    if ltb prune_threshold (num_infer_shards + num_train_shards) then some rank else none

-- `operation.send_rank == global_transfer_rank`, or recv_rank on an inference rank
pub own : Bool → ℕ → CommunicationOperation → Bool
own is_train rank operation =
    if is_train then operation.send_rank == rank else operation.recv_rank == rank

pub opposite : Bool → CommunicationOperation → ℕ
opposite is_train operation = if is_train then operation.recv_rank else operation.send_rank

-- The filter, the grouping and the validation behind it.
pub local_plan : Bool → ℕ → List CommunicationOperation → Result TransferPlan
local_plan is_train rank operations = do
  let grouped = group_operations_by_rank (opposite is_train) (select (own is_train rank) operations)
  guard (all (λ ops. all (own is_train rank) ops) (values grouped)) assertion_error
  ok (post_init [] grouped)

pub build_local_transfer_plan :
    Builder → List ParameterMeta → List ParameterMeta → ℕ → Result TransferPlan
build_local_transfer_plan b inference_weights_meta training_weights_meta rank = do
  let is_train = leb b.infer_world_size rank
  operations ←
      build_weights_mapping_operations b inference_weights_meta training_weights_meta
        (wanted_rank b inference_weights_meta training_weights_meta rank)
  local_plan is_train rank operations

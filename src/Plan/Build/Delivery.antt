-- ===== src/Plan/Build/Delivery.antt =====
-- What the plans promise, written out: every element reaches every place that stores it.
use asystem_awex.Prelude.{ℕ, ◌≡◌, none, some, List, Each, select, count_by}
use asystem_awex.Prelude.Result.{ok}
use asystem_awex.Meta.{ParameterMeta}
use asystem_awex.Plan.Shards.{CommunicationOperation, Builder}
use asystem_awex.Plan.Overlap.Moves.{IsMove}
use asystem_awex.Plan.Build.{
  inference_replicas, build_parameter_communication_plan, build_weights_mapping_operations,
}
use asystem_awex.Plan.Build.Valid.{IsBuilder}
use asystem_awex.Plan.Build.Pair.{concerns}
use asystem_awex.Plan.Build.Counted.{Test, delivers}
use asystem_awex.Plan.Build.Parameter.{
  IsParameter, IsComplete, stored_by, build_parameter_communication_plan_lem,
}
use asystem_awex.Plan.Build.Mapping.{IsModel, build_weights_mapping_operations_lem}

-- For a valid builder and a valid parameter, and an index that every training replica stores in
-- exactly one shard: the plan is made, and for every test of a rank and a shard, as many of its
-- operations write the index on a receiver that passes the test as there are inference shards, over
-- all engines and replicas, that pass the test and store the index.
pub build_parameter_communication_plan-delivers :
    (b : Builder) (n : ℕ) (inference training : ParameterMeta)
    → IsBuilder b
    → IsParameter b n inference training
    → (p : Test) (index : List ℕ) → IsComplete index training.replicas
    → (ops : List CommunicationOperation) × (build_parameter_communication_plan b none inference
          training
        ≡ ok ops)
      × (count_by (delivers p index) ops
          ≡ stored_by b p index (inference_replicas 0 b.num_infer_engines inference.replicas))
build_parameter_communication_plan-delivers b n inference training ib valid p index complete =
    let plan = build_parameter_communication_plan_lem b n inference training ib valid in
    (plan.ops, plan.planned, plan.counted p index complete)

-- For a valid builder and a valid model, the plan is made, nothing is raised, and every operation
-- stays within the shapes of its two shards, goes from a training rank to an inference rank, and
-- reads of the parameter exactly the indices that it writes.
pub build_weights_mapping_operations-moves :
    (b : Builder) (inference training : List ParameterMeta)
    → IsBuilder b
    → IsModel b inference training
    → (ops : List CommunicationOperation) × (build_weights_mapping_operations b inference training
          none
        ≡ ok ops)
      × Each (IsMove b) ops
build_weights_mapping_operations-moves b inference training ib model =
    let plan = build_weights_mapping_operations_lem b inference training ib model in
    (plan.ops, plan.planned, plan.moving)

-- For a valid builder and a valid model, the plan that is built for one rank is the part of the plan
-- for all ranks in which the rank sends, on a training rank, or receives, on an inference rank, in
-- the same order.
pub build_weights_mapping_operations-pruned :
    (b : Builder) (inference training : List ParameterMeta)
    → IsBuilder b
    → IsModel b inference training
    → (rank : ℕ)
    → (ops : List CommunicationOperation) × (build_weights_mapping_operations b inference training
          none
        ≡ ok ops)
      × (build_weights_mapping_operations b inference training (some rank)
          ≡ ok (select (concerns b rank) ops))
build_weights_mapping_operations-pruned b inference training ib model rank =
    let plan = build_weights_mapping_operations_lem b inference training ib model in
    (plan.ops, plan.planned, plan.pruned rank)

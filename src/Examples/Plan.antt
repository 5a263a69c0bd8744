-- ===== src/Examples/Plan.antt =====
-- The theorems of the plan at the small model.
use asystem_awex.Prelude.{
  ℕ, ◌≡◌, refl, none, some, List, [], ◌∷◌, true, select, ◌==◌, count_by, Each, arith,
}
use asystem_awex.Prelude.Equality.{nat_eq}
use asystem_awex.Prelude.Dict.{bucket}
use asystem_awex.Prelude.Result.{ok, ◌>>=◌}
use asystem_awex.Plan.Shards.{CommunicationOperation}
use asystem_awex.Plan.Overlap.Moves.{IsMove}
use asystem_awex.Plan.Build.{
  inference_replicas, build_parameter_communication_plan, build_weights_mapping_operations,
}
use asystem_awex.Plan.Build.Pair.{concerns}
use asystem_awex.Plan.Build.Counted.{delivers}
use asystem_awex.Plan.Build.Parameter.{stored_by}
use asystem_awex.Plan.Build.Delivery.{
  build_parameter_communication_plan-delivers, build_weights_mapping_operations-moves,
  build_weights_mapping_operations-pruned,
}
use asystem_awex.Prelude.Sort.{nat_ord, list_ord, pair_ord}
use asystem_awex.Plan.Local.Groups.{InOrder, group_operations_by_rank-InOrder}
use asystem_awex.Prelude.Sort.{IsSorted}
use mathlib.Core.List.{Perm}
use asystem_awex.Plan.Local.{
  group_operations_by_rank, TransferPlan, local_plan, build_local_transfer_plan,
}
use asystem_awex.Plan.Local.Match.{
  build_local_transfer_plan-match, build_local_transfer_plan-pruning,
}
use asystem_awex.Examples.Data.{
  infer_weight, train_weight, a_builder, some_op, a_builder-IsBuilder, weight-IsParameter,
  weights-IsModel,
}

delivers_example :
    (ops : List CommunicationOperation) × (build_parameter_communication_plan a_builder none
        infer_weight train_weight
      ≡ ok ops)
    × (count_by (delivers (λ rank shard. true) (3 ∷ 1 ∷ [])) ops
        ≡ stored_by a_builder
            (λ rank shard. true)
            (3 ∷ 1 ∷ [])
            (inference_replicas 0 1 infer_weight.replicas))
delivers_example =
    build_parameter_communication_plan-delivers a_builder 2 infer_weight train_weight
      a_builder-IsBuilder weight-IsParameter (λ rank shard. true) (3 ∷ 1 ∷ []) (refl, tt)

moves_example :
    (ops : List CommunicationOperation) × (build_weights_mapping_operations a_builder
        (infer_weight ∷ [])
        (train_weight ∷ [])
        none
      ≡ ok ops)
    × Each (IsMove a_builder) ops
moves_example =
    build_weights_mapping_operations-moves a_builder (infer_weight ∷ []) (train_weight ∷ [])
      a_builder-IsBuilder weights-IsModel

pruned_example :
    (ops : List CommunicationOperation) × (build_weights_mapping_operations a_builder
        (infer_weight ∷ [])
        (train_weight ∷ [])
        none
      ≡ ok ops)
    × (build_weights_mapping_operations a_builder (infer_weight ∷ []) (train_weight ∷ []) (some 3)
        ≡ ok (select (concerns a_builder 3) ops))
pruned_example =
    build_weights_mapping_operations-pruned a_builder (infer_weight ∷ []) (train_weight ∷ [])
      a_builder-IsBuilder weights-IsModel 3

match_example :
    (sender receiver : TransferPlan) × (build_local_transfer_plan a_builder
        (infer_weight ∷ [])
        (train_weight ∷ [])
        3
      ≡ ok sender)
    × (build_local_transfer_plan a_builder (infer_weight ∷ []) (train_weight ∷ []) 0 ≡ ok receiver)
    × (bucket sender.operations 0 ≡ bucket receiver.operations 3)
match_example =
    build_local_transfer_plan-match a_builder (infer_weight ∷ []) (train_weight ∷ [])
      a_builder-IsBuilder weights-IsModel 3 0 (omega arith) (omega arith)

pruning_example : build_local_transfer_plan a_builder (infer_weight ∷ []) (train_weight ∷ []) 3 ≡ (
    build_weights_mapping_operations a_builder (infer_weight ∷ []) (train_weight ∷ []) none
    >>= local_plan true 3)
pruning_example =
    build_local_transfer_plan-pruning a_builder (infer_weight ∷ []) (train_weight ∷ [])
      a_builder-IsBuilder weights-IsModel 3

-- The same parameter and offset on the sending side, and a later one on the receiving side.
abbrev later_op : CommunicationOperation
later_op = record some_op { recv_offset = 1 ∷ 0 ∷ [] }

abbrev by_receiver : CommunicationOperation → ℕ
by_receiver op = op.recv_rank

group_example :
    IsSorted (λ g. g.0) (group_operations_by_rank by_receiver (later_op ∷ some_op ∷ []))
    × ((k : ℕ)
        → Perm
            (bucket (group_operations_by_rank by_receiver (later_op ∷ some_op ∷ [])) k)
            (select (λ op. by_receiver op == k) (later_op ∷ some_op ∷ []))
          × InOrder (bucket (group_operations_by_rank by_receiver (later_op ∷ some_op ∷ [])) k))
group_example = group_operations_by_rank-InOrder by_receiver (later_op ∷ some_op ∷ [])

-- ===== src/Plan/Local/Match.antt =====
-- The two ends of a transfer make the same list of operations.
use asystem_awex.Prelude.{
  ℕ, ◌≤◌, ◌<◌, ◌≡◌, refl, sym, ◌∙◌, ap, Bool, true, false, none, some, List, [], ◌∷◌, select,
  select_comm, all-select, arith, ◌==◌, leb, le→leb, if◌then◌else◌,
}
use asystem_awex.Prelude.Equality.{nat_eq}
use asystem_awex.Prelude.Dict.{bucket}
use asystem_awex.Prelude.Sort.{sort_on, nat_ord, list_ord, pair_ord}
use asystem_awex.Prelude.Result.{ok, guard, ◌>>=◌}
use asystem_awex.Meta.{ParameterMeta}
use asystem_awex.Plan.Shards.{CommunicationOperation, Builder}
use asystem_awex.Plan.Build.{build_weights_mapping_operations}
use asystem_awex.Plan.Build.Valid.{IsBuilder}
use asystem_awex.Plan.Build.Pair.{concerns}
use asystem_awex.Plan.Build.Mapping.{IsModel, ModelPlan, build_weights_mapping_operations_lem}
use asystem_awex.Plan.Local.{
  Grouped, TransferPlan, post_init, op_key, group_operations_by_rank, wanted_rank, own, opposite,
  local_plan, build_local_transfer_plan,
}
use asystem_awex.Plan.Local.Groups.{bucket-group_operations_by_rank, all-group_operations_by_rank}

-- The local plan of a rank, made from the whole list of operations.
abbrev pub groups_of : Bool → ℕ → List CommunicationOperation → Grouped
groups_of is_train rank ops =
    group_operations_by_rank (opposite is_train) (select (own is_train rank) ops)

post_init-inter : (g : Grouped) → (post_init [] g).inter_operations ≡ g
unfolding post_init
post_init-inter [] = refl
post_init-inter (x ∷ g) = refl

post_init-operations : (g : Grouped) → (post_init [] g).operations ≡ g
unfolding post_init
post_init-operations [] = refl
post_init-operations (x ∷ g) = refl

-- The validation never fails.
local_plan-ok :
    (is_train : Bool) (rank : ℕ) (ops : List CommunicationOperation)
    → local_plan is_train rank ops ≡ ok (post_init [] (groups_of is_train rank ops))
unfolding local_plan
local_plan-ok is_train rank ops =
    rw
      (
        all-group_operations_by_rank (own is_train rank) (opposite is_train)
            (select (own is_train rank) ops) (all-select (own is_train rank) ops),
        guard,
      )
      refl

own-concerns :
    (b : Builder) (rank : ℕ) (op : CommunicationOperation)
    → own (leb b.infer_world_size rank) rank op ≡ concerns b rank op
unfolding own
own-concerns b rank op = ground arith

-- To select twice by the same test is to select once.
select_twice :
    (b : Builder) (rank : ℕ) (ops : List CommunicationOperation)
    → select (own (leb b.infer_world_size rank) rank) (select (concerns b rank) ops)
      ≡ select (own (leb b.infer_world_size rank) rank) ops
select_twice b rank [] = refl
select_twice b rank (op ∷ ops) = ground (arith, own-concerns b rank op, select_twice b rank ops)

-- The operations between two ranks, seen from either side.
same_ops :
    (t i : ℕ) (ops : List CommunicationOperation)
    → select (λ op. opposite true op == i) (select (own true t) ops)
      ≡ select (λ op. opposite false op == t) (select (own false i) ops)
unfolding own opposite
same_ops t i ops = select_comm _ _ ops

lt→not_leb : (w i : ℕ) → i < w → leb w i ≡ false
lt→not_leb w i h = ground arith

module _ (b : Builder) (inference training : List ParameterMeta) (ib : IsBuilder b)
    (model : IsModel b inference training) where
  model_plan : ModelPlan b inference training
  model_plan = build_weights_mapping_operations_lem b inference training ib model

  groups_of_concerned :
      (rank : ℕ)
      → groups_of (leb b.infer_world_size rank) rank (select (concerns b rank) model_plan.ops)
        ≡ groups_of (leb b.infer_world_size rank) rank model_plan.ops
  groups_of_concerned rank =
      ap (group_operations_by_rank (opposite (leb b.infer_world_size rank)))
        (select_twice b rank model_plan.ops)

  local_from_wanted :
      (rank : ℕ) (large : Bool)
      → (build_weights_mapping_operations b inference training (if large then some rank else none)
          >>= local_plan (leb b.infer_world_size rank) rank)
        ≡ ok (post_init [] (groups_of (leb b.infer_world_size rank) rank model_plan.ops))
  local_from_wanted rank true =
      rw (model_plan.pruned rank, ◌>>=◌)
        (local_plan-ok (leb b.infer_world_size rank) rank (select (concerns b rank) model_plan.ops)
          ∙ ap (λ g. ok (post_init [] g)) (groups_of_concerned rank))
  local_from_wanted rank false =
      rw (model_plan.planned, ◌>>=◌)
        (local_plan-ok (leb b.infer_world_size rank) rank model_plan.ops)

  -- With the threshold reached or not, the plan is made from the whole list.
  local_from_all :
      (rank : ℕ)
      → build_local_transfer_plan b inference training rank
        ≡ ok (post_init [] (groups_of (leb b.infer_world_size rank) rank model_plan.ops))
  unfolding build_local_transfer_plan wanted_rank
  local_from_all rank = local_from_wanted rank _

  -- For a valid builder and model, the pruning of a large plan makes no difference: the local plan of a rank is
  -- what the filter, the grouping and the validation make of the operations of all ranks.
  pub build_local_transfer_plan-pruning :
      (rank : ℕ)
      → build_local_transfer_plan b inference training rank ≡ (
          build_weights_mapping_operations b inference training none
          >>= local_plan (leb b.infer_world_size rank) rank)
  build_local_transfer_plan-pruning rank =
      local_from_all rank
      ∙ sym (
          rw (model_plan.planned, ◌>>=◌)
            (local_plan-ok (leb b.infer_world_size rank) rank model_plan.ops))

  bucket-groups :
      (is_train : Bool) (rank peer : ℕ)
      → bucket (groups_of is_train rank model_plan.ops) peer
        ≡ sort_on op_key (
            select (λ op. opposite is_train op == peer) (select (own is_train rank) model_plan.ops))
  bucket-groups is_train rank peer = bucket-group_operations_by_rank (opposite is_train) _ peer

  -- For a valid builder and model, a training rank and an inference rank: both local plans are made, and the
  -- operations that the training rank has for the inference rank are, in the same order, those that
  -- the inference rank has for the training rank.
  pub build_local_transfer_plan-match :
      (train_rank infer_rank : ℕ)
      → b.infer_world_size ≤ train_rank
      → infer_rank < b.infer_world_size
      → (sender receiver : TransferPlan) × (build_local_transfer_plan b inference training
            train_rank
          ≡ ok sender)
        × (build_local_transfer_plan b inference training infer_rank ≡ ok receiver)
        × (bucket sender.operations infer_rank ≡ bucket receiver.operations train_rank)
  build_local_transfer_plan-match t i above below =
      let on_train : leb b.infer_world_size t ≡ true = le→leb _ _ above in
      let on_infer : leb b.infer_world_size i ≡ false = lt→not_leb _ _ below in
      (
        post_init [] (groups_of true t model_plan.ops),
        post_init [] (groups_of false i model_plan.ops),
        rw (← on_train) (local_from_all t),
        rw (← on_infer) (local_from_all i),
        ap (λ g. bucket g i) (post_init-operations (groups_of true t model_plan.ops))
            ∙ bucket-groups true t i
            ∙ ap (sort_on op_key) (same_ops t i model_plan.ops)
            ∙ sym (bucket-groups false i t)
            ∙ sym (ap (λ g. bucket g t) (post_init-operations (groups_of false i model_plan.ops))),
      )

-- ===== src/Plan/Build/Mapping.antt =====
-- The plan of a whole model: all parameters that both sides have.
use asystem_awex.Prelude.{
  ℕ, ◌≡◌, refl, sym, ◌∙◌, ap, true, false, ◌||◌, Option, none, some, List, [], ◌∷◌, ◌++◌, is_nil,
  Each, Each-append, select, select-append, Bool-cases, inl, inr, if◌then◌else◌,
}
use asystem_awex.Prelude.Equality.{Text, list_eq, nat_eq}
use asystem_awex.Prelude.Dict.{Dict, get, has, keys, get_of_has, has-keys}
use asystem_awex.Prelude.Sort.{Each-sort_on, list_ord, nat_ord}
use asystem_awex.Prelude.Result.{ok, guard, ◌>>=◌, collect, collect-ok_cons}
use asystem_awex.Common.Keys.{key_mismatch}
use asystem_awex.Meta.{ParameterMeta}
use asystem_awex.Plan.Shards.{CommunicationOperation, Builder}
use asystem_awex.Plan.Overlap.Moves.{IsMove}
use asystem_awex.Plan.Build.{
  build_parameter_communication_plan, meta_dict, require_meta, named_plan, common_params,
  build_weights_mapping_operations,
}
use asystem_awex.Plan.Build.Valid.{IsBuilder}
use asystem_awex.Plan.Build.Pair.{concerns}
use asystem_awex.Plan.Build.Parameter.{
  IsParameter, ParameterPlan, build_parameter_communication_plan_lem,
}

-- The keys agree, and every parameter that both sides have is valid.
pub record IsModel (b : Builder) (inference training : List ParameterMeta) : Type 0 where
  pub keys_match :
      key_mismatch b.strict_param_key_match
        (keys (meta_dict [] inference))
        (keys (meta_dict [] training))
      ≡ false
  pub dims : Text → ℕ
  pub valid :
      (name : Text) (i t : ParameterMeta)
      → get (meta_dict [] inference) name ≡ some i
      → get (meta_dict [] training) name ≡ some t
      → IsParameter b (dims name) i t

-- What the plan for a list of parameters does.
pub record NamedPlans (b : Builder) (infer train : Dict Text ParameterMeta) (names : List Text)
    : Type 0 where
  pub ops : List CommunicationOperation
  pub planned : collect (named_plan b none infer train) names ≡ ok ops
  pub moving : Each (IsMove b) ops
  pub pruned :
      (rank : ℕ)
      → collect (named_plan b (some rank) infer train) names ≡ ok (select (concerns b rank) ops)

-- A name that both dicts have.
abbrev InBoth : Dict Text ParameterMeta → Dict Text ParameterMeta → Text → Type 0
InBoth infer train name = (has infer name ≡ true) × (has train name ≡ true)

select-InBoth :
    (infer train : Dict Text ParameterMeta) (names : List Text)
    → Each (λ k. has infer k ≡ true) names
    → Each (InBoth infer train) (select (has train) names)
select-InBoth infer train [] h = tt
select-InBoth infer train (k ∷ names) h = elim (Bool-cases (has train k)) [
  | inl t ↦ rw (t, if◌then◌else◌) ((h.0, t), select-InBoth infer train names h.1)
  | inr t ↦ rw (t, if◌then◌else◌) (select-InBoth infer train names h.1)
]

common_params-InBoth :
    (infer train : Dict Text ParameterMeta) → Each (InBoth infer train) (common_params infer train)
unfolding common_params
common_params-InBoth infer train =
    Each-sort_on (λ name. name) (InBoth infer train) _
      (select-InBoth infer train (keys infer) (has-keys infer))

module _ (b : Builder) (inference training : List ParameterMeta) (ib : IsBuilder b)
    (model : IsModel b inference training) where
  abbrev infer_dict : Dict Text ParameterMeta
  infer_dict = meta_dict [] inference

  abbrev train_dict : Dict Text ParameterMeta
  train_dict = meta_dict [] training

  one_name :
      (name : Text)
      → InBoth infer_dict train_dict name
      → (i t : ParameterMeta) × ParameterPlan b i t
        × ((wanted : Option ℕ)
            → named_plan b wanted infer_dict train_dict name
              ≡ build_parameter_communication_plan b wanted i t)
  unfolding named_plan require_meta
  one_name name h =
      let (i, ei) = get_of_has infer_dict name h.0 in
      let (t, et) = get_of_has train_dict name h.1 in
      (
        i,
        t,
        build_parameter_communication_plan_lem b (model.dims name) i t ib
            (model.valid name i t ei et),
        λ wanted. rw (ei, ◌>>=◌) (rw (et, ◌>>=◌)),
      )

  named_plans_lem :
      (names : List Text)
      → Each (InBoth infer_dict train_dict) names
      → NamedPlans b infer_dict train_dict names
  named_plans_lem [] h = record { ops = []; planned = refl; moving = tt; pruned = λ rank. refl }
  named_plans_lem (name ∷ names) h =
      let (i, t, plan, same) = one_name name h.0 in
      let rest = named_plans_lem names h.1 in
      record {
        ops = plan.ops ++ rest.ops;
        planned =
            collect-ok_cons (named_plan b none infer_dict train_dict) name names
              (same none ∙ plan.planned) rest.planned;
        moving = Each-append (IsMove b) plan.ops rest.ops plan.moving rest.moving;
        pruned = λ rank.
            collect-ok_cons (named_plan b (some rank) infer_dict train_dict) name names
              (same (some rank) ∙ plan.pruned rank) (rest.pruned rank)
            ∙ ap ok (sym (select-append (concerns b rank) plan.ops rest.ops));
      }

-- What the plan of a model does.
pub record ModelPlan (b : Builder) (inference training : List ParameterMeta) : Type 0 where
  pub ops : List CommunicationOperation
  pub planned : build_weights_mapping_operations b inference training none ≡ ok ops
  pub moving : Each (IsMove b) ops
  pub pruned :
      (rank : ℕ)
      → build_weights_mapping_operations b inference training (some rank)
        ≡ ok (select (concerns b rank) ops)

-- A valid model has a plan: nothing is raised, every operation stays within its two shards and reads
-- the elements that it writes, and the plan for one rank is the part of the whole plan that
-- concerns the rank.
pub build_weights_mapping_operations_lem :
    (b : Builder) (inference training : List ParameterMeta)
    → IsBuilder b
    → IsModel b inference training
    → ModelPlan b inference training
unfolding build_weights_mapping_operations
build_weights_mapping_operations_lem b inference training ib model =
    elim (Bool-cases (is_nil inference || is_nil training)) [
      | inl t ↦ record {
        ops = [];
        planned = rw (t, if◌then◌else◌);
        moving = tt;
        pruned = λ rank. rw (t, if◌then◌else◌);
      }
      | inr t ↦
          let plans =
            named_plans_lem b inference training ib model _
              (common_params-InBoth (meta_dict [] inference) (meta_dict [] training)) in
          record {
            ops = plans.ops;
            planned = rw (t, if◌then◌else◌) (rw (model.keys_match, guard) plans.planned);
            moving = plans.moving;
            pruned =
                λ rank. rw (t, if◌then◌else◌) (rw (model.keys_match, guard) (plans.pruned rank));
          }
    ]

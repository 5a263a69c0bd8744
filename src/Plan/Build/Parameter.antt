-- ===== src/Plan/Build/Parameter.antt =====
-- The plan of one parameter: all engines, all replicas.
use asystem_awex.Prelude.{
  ℕ, zero, suc, ◌+◌, ◌*◌, ◌%◌, ◌≤◌, ◌<◌, ◌≡◌, refl, sym, subst, ◌∙◌, ap, Bool, true, false, not,
  ◌||◌, none, some, List, [], ◌∷◌, ◌++◌, map, length, is_nil, get_elem?, get_elem?-lt, arith, Each,
  Each-append, select, select-append, count_by, count_by-append, sum_by,
}
use asystem_awex.Prelude.Result.{ok, guard, ◌>>=◌}
use asystem_awex.Meta.{ParameterReplicaMeta, ParameterMeta}
use asystem_awex.Plan.Shards.{CommunicationOperation, Builder}
use asystem_awex.Plan.Overlap.Moves.{IsMove}
use asystem_awex.Plan.Build.{
  inference_replicas, assigned_training, assigned_plans, build_parameter_communication_plan,
}
use asystem_awex.Plan.Build.Valid.{HasRank, IsInfer, IsBuilder}
use asystem_awex.Plan.Build.Pair.{concerns}
use asystem_awex.Plan.Build.Counted.{stores, Test, delivers, stored_at, PairPlan, pair_plan_lem}

pub record IsInferReplica (b : Builder) (n : ℕ) (replica : ParameterReplicaMeta) : Type 0 where
  pub some_shard : not (is_nil replica.shards) ≡ true
  pub shards : Each (IsInfer b n) replica.shards

pub record IsTrainReplica (n : ℕ) (replica : ParameterReplicaMeta) : Type 0 where
  pub some_shard : not (is_nil replica.shards) ≡ true
  pub shards : Each (HasRank n) replica.shards

-- An inference replica together with its engine.
pub record IsAssigned (b : Builder) (n : ℕ) (a : ℕ × ParameterReplicaMeta) : Type 0 where
  pub engine : a.0 < b.num_infer_engines
  pub replica : IsInferReplica b n a.1

-- Every training replica stores the element exactly once.
abbrev pub IsComplete : List ℕ → List ParameterReplicaMeta → Type 0
IsComplete index training = Each (λ rep. count_by (stores index) rep.shards ≡ 1) training

-- In how many shards that pass the test the inference side stores the element.
abbrev pub stored_by : Builder → Test → List ℕ → List (ℕ × ParameterReplicaMeta) → ℕ
stored_by b p index = sum_by (λ a. count_by (stored_at b a.0 p index) a.1.shards)

-- What the plan for a list of assigned replicas does.
pub record AssignedPlan (b : Builder) (training : List ParameterReplicaMeta) (idx : ℕ)
    (assigned : List (ℕ × ParameterReplicaMeta)) : Type 0 where
  pub ops : List CommunicationOperation
  pub planned : assigned_plans b none training idx assigned ≡ ok ops
  pub moving : Each (IsMove b) ops
  pub pruned :
      (rank : ℕ)
      → assigned_plans b (some rank) training idx assigned ≡ ok (select (concerns b rank) ops)
  pub counted :
      (p : Test) (index : List ℕ)
      → IsComplete index training
      → count_by (delivers p index) ops ≡ stored_by b p index assigned

Each-get_elem? {ℓ κ} :
    {A : Type ℓ} (P : A → Type κ) (xs : List A) (i : ℕ) (x : A)
    → Each P xs
    → get_elem? xs i ≡ some x
    → P x
Each-get_elem? P [] i x h e = cc
Each-get_elem? P (y ∷ xs) zero x h e = subst P (cc) h.0
Each-get_elem? P (y ∷ xs) (suc i) x h e = Each-get_elem? P xs i x h.1 e

round_robin :
    (training : List ParameterReplicaMeta) (idx : ℕ)
    → not (is_nil training) ≡ true
    → (replica : ParameterReplicaMeta) × (get_elem? training (idx % length training) ≡ some replica)
round_robin [] idx h = cc
round_robin (t ∷ training) idx h =
    get_elem?-lt (t ∷ training) (idx % length (t ∷ training)) (omega arith)

join_counts : (c d k m s : ℕ) → c ≡ k * m → m ≡ 1 → d ≡ s → c + d ≡ k + s
join_counts c d k m s h one k' = omega (arith, h ∙ ap (λ t. k * t) one)

module _ (b : Builder) (n : ℕ) (training : List ParameterReplicaMeta) (ib : IsBuilder b)
    (positive : 0 < n) (some_training : not (is_nil training) ≡ true)
    (valid : Each (IsTrainReplica n) training) where
  one_assigned :
      (idx : ℕ) (a : ℕ × ParameterReplicaMeta) (rest : List (ℕ × ParameterReplicaMeta))
      → IsAssigned b n a
      → AssignedPlan b training (idx + 1) rest
      → AssignedPlan b training idx (a ∷ rest)
  unfolding assigned_plans assigned_training
  one_assigned idx (e, rep) rest h more =
      let (t, found) = round_robin training idx some_training in
      let train = Each-get_elem? (IsTrainReplica n) training _ t valid found in
      let pair : PairPlan b e rep t = pair_plan_lem b n e rep t ib h.engine (record {
        positive = positive;
        infer_some = h.replica.some_shard;
        train_some = train.some_shard;
        infer = h.replica.shards;
        train = train.shards;
      }) in
      record {
        ops = pair.ops ++ more.ops;
        planned = rw (found, ◌>>=◌) (rw (pair.planned, ◌>>=◌) (rw (more.planned, ◌>>=◌) refl));
        moving = Each-append (IsMove b) pair.ops more.ops pair.moving more.moving;
        pruned = λ rank.
            rw (found, ◌>>=◌)
              (rw (pair.pruned rank, ◌>>=◌)
                (rw (more.pruned rank, ◌>>=◌)
                  (ap ok (sym (select-append (concerns b rank) pair.ops more.ops)))));
        counted = λ p index complete.
            let once =
              Each-get_elem? (λ r. count_by (stores index) r.shards ≡ 1) training _ t complete
                found in
            count_by-append (delivers p index) pair.ops more.ops
            ∙ join_counts _ _ _ _ _ (pair.counted p index) once (more.counted p index complete);
      }

  assigned_plans_lem :
      (idx : ℕ) (assigned : List (ℕ × ParameterReplicaMeta))
      → Each (IsAssigned b n) assigned
      → AssignedPlan b training idx assigned
  assigned_plans_lem idx [] h =
      unfold assigned_plans in
      record {
        ops = [];
        planned = refl;
        moving = tt;
        pruned = λ rank. refl;
        counted = λ p index complete. refl;
      }
  assigned_plans_lem idx (a ∷ assigned) h =
      one_assigned idx a assigned h.0 (assigned_plans_lem (idx + 1) assigned h.1)

-- What the resolvers promise of a parameter on the two sides.
pub record IsParameter (b : Builder) (n : ℕ) (inference training : ParameterMeta) : Type 0 where
  pub positive : 0 < n
  pub some_engine : 0 < b.num_infer_engines
  pub some_infer : not (is_nil inference.replicas) ≡ true
  pub some_train : not (is_nil training.replicas) ≡ true
  pub infer : Each (IsInferReplica b n) inference.replicas
  pub train : Each (IsTrainReplica n) training.replicas

-- What the plan of a parameter does.
pub record ParameterPlan (b : Builder) (inference training : ParameterMeta) : Type 0 where
  pub ops : List CommunicationOperation
  pub planned : build_parameter_communication_plan b none inference training ≡ ok ops
  pub moving : Each (IsMove b) ops
  pub pruned :
      (rank : ℕ)
      → build_parameter_communication_plan b (some rank) inference training
        ≡ ok (select (concerns b rank) ops)
  pub counted :
      (p : Test) (index : List ℕ)
      → IsComplete index training.replicas
      → count_by (delivers p index) ops
        ≡ stored_by b p index (inference_replicas 0 b.num_infer_engines inference.replicas)

tagged :
    (b : Builder) (n e : ℕ) (replicas : List ParameterReplicaMeta)
    → e < b.num_infer_engines
    → Each (IsInferReplica b n) replicas
    → Each (IsAssigned b n) (map (λ replica. (e, replica)) replicas)
tagged b n e [] lt h = tt
tagged b n e (r ∷ replicas) lt h =
    (record { engine = lt; replica = h.0 }, tagged b n e replicas lt h.1)

inference_replicas-IsAssigned :
    (b : Builder) (n start engines : ℕ) (replicas : List ParameterReplicaMeta)
    → start + engines ≤ b.num_infer_engines
    → Each (IsInferReplica b n) replicas
    → Each (IsAssigned b n) (inference_replicas start engines replicas)
unfolding inference_replicas
inference_replicas-IsAssigned b n start zero replicas fits h = tt
inference_replicas-IsAssigned b n start (suc engines) replicas fits h =
    Each-append (IsAssigned b n) _ _ (tagged b n start replicas (omega arith) h)
      (inference_replicas-IsAssigned b n (start + 1) engines replicas (omega arith) h)

neither : (u v : Bool) → u ≡ false → not v ≡ true → not (u || v) ≡ true
neither u v h k = ground arith

some_assigned :
    (start engines : ℕ) (replicas : List ParameterReplicaMeta)
    → 0 < engines
    → not (is_nil replicas) ≡ true
    → is_nil (inference_replicas start engines replicas) ≡ false
unfolding inference_replicas
some_assigned start zero replicas h k = absurd (omega arith)
some_assigned start (suc engines) [] h k = cc
some_assigned start (suc engines) (r ∷ replicas) h k = refl

-- A valid parameter has a plan: nothing is raised; every operation stays within its two shards and
-- reads the elements that it writes; the plan for one rank is the part that concerns the rank; and
-- an element that every training replica stores once is delivered to each inference shard that
-- stores it, on every engine, exactly once.
pub build_parameter_communication_plan_lem :
    (b : Builder) (n : ℕ) (inference training : ParameterMeta)
    → IsBuilder b
    → IsParameter b n inference training
    → ParameterPlan b inference training
unfolding build_parameter_communication_plan
build_parameter_communication_plan_lem b n inference training ib valid =
    let assigned = inference_replicas 0 b.num_infer_engines inference.replicas in
    let plan =
      assigned_plans_lem b n training.replicas ib valid.positive valid.some_train valid.train 0
        assigned
        (inference_replicas-IsAssigned b n 0 b.num_infer_engines inference.replicas (omega arith)
          valid.infer) in
    let here : not (is_nil assigned || is_nil training.replicas) ≡ true =
      neither _ _
        (some_assigned 0 b.num_infer_engines inference.replicas valid.some_engine valid.some_infer)
        valid.some_train in
    record {
      ops = plan.ops;
      planned = rw (here, guard) plan.planned;
      moving = plan.moving;
      pruned = λ rank. rw (here, guard) (plan.pruned rank);
      counted = plan.counted;
    }

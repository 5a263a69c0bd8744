-- ===== src/Sharding/Strategy/Laws.antt =====
-- What the resolver relies on: a strategy's kind and its number of shards agree.
use asystem_awex.Prelude.{
  ℕ, ◌≤◌, ◌<◌, ◌≡◌, refl, ◌≢◌, inl, inr, Bool, true, false, ◌&&◌, tests, ltb, ◌==◌, arith,
  Bool-cases, if◌then◌else◌,
}
use asystem_awex.Prelude.Equality.{Text}
use asystem_awex.Sharding.{ShardingType, no_sharding, tp_sharding, dp_tp_sharding}
use asystem_awex.Sharding.Strategy.{
  ShardingInfo, ShardingStrategy, over, dispatch, get_attention_sharding_strategy,
  get_mlp_sharding_strategy, get_expert_sharding_strategy, get_shared_expert_sharding_strategy,
  get_lm_head_sharding_strategy, get_embedding_sharding_strategy, get_sharding_strategy,
  bailing_embedding_sharding_strategy, bailing_sharding_strategy, linear_mla_sharding_strategy,
}

-- Unsharded with one shard, or sharded over at least two ranks.
pub data IsConsistent (i : ShardingInfo) : Type 0 where
  whole : i.0 ≡ no_sharding → i.2 ≡ 1 → IsConsistent i
  several : i.0 ≢ no_sharding → 2 ≤ i.2 → IsConsistent i

tp-ne-no : tp_sharding ≢ no_sharding
tp-ne-no e = cc

dp_tp-ne-no : dp_tp_sharding ≢ no_sharding
dp_tp-ne-no e = cc

over-IsConsistent : (k : ShardingType) (d n : ℕ) → k ≢ no_sharding → IsConsistent (over k d n)
unfolding over
over-IsConsistent k d n h = elim (Bool-cases (ltb 1 n)) [
  | inl t ↦ rw (t, if◌then◌else◌) (several h (omega tests))
  | inr t ↦ rw (t, if◌then◌else◌) (whole refl refl)
]

if-IsConsistent :
    (b : Bool) (x y : ShardingInfo)
    → (b ≡ true → IsConsistent x)
    → (b ≡ false → IsConsistent y)
    → IsConsistent (if b then x else y)
if-IsConsistent true x y h k = h refl
if-IsConsistent false x y h k = k refl

plain-IsConsistent : (d : ℕ) → IsConsistent (no_sharding, d, 1)
plain-IsConsistent d = whole refl refl

tp_default-IsConsistent :
    (dim size : ℕ) → 0 < size → (size == 1) ≡ false → IsConsistent (tp_sharding, dim, size)
tp_default-IsConsistent dim size h k = several tp-ne-no (ground arith)

tp_guarded-IsConsistent :
    (dim size : ℕ) (b : Bool) → (b && ltb 1 size) ≡ true → IsConsistent (tp_sharding, dim, size)
tp_guarded-IsConsistent dim size b h = several tp-ne-no (ground arith)

ruleset branch_rules = (
  if-IsConsistent, plain-IsConsistent, over-IsConsistent, tp-ne-no, dp_tp-ne-no,
  tp_default-IsConsistent, tp_guarded-IsConsistent,
)

module _ (s : ShardingStrategy) (name : Text) where
  attention-IsConsistent : IsConsistent (get_attention_sharding_strategy s name)
  unfolding get_attention_sharding_strategy
  attention-IsConsistent = search branch_rules

  expert-IsConsistent : IsConsistent (get_expert_sharding_strategy s name)
  unfolding get_expert_sharding_strategy
  expert-IsConsistent = elim (Bool-cases (ltb 1 s.ep_size)) [
    | inl t ↦ elim (Bool-cases (ltb 1 s.ep_tp_size)) [
      | inl u ↦ rw (t, u, ◌&&◌, if◌then◌else◌) (several (λ e. cc) (omega tests))
      | inr u ↦ rw (t, u, ◌&&◌, if◌then◌else◌) (several (λ e. cc) (omega tests))
    ]
    | inr t ↦ rw (t, ◌&&◌, if◌then◌else◌) (over-IsConsistent tp_sharding _ _ tp-ne-no)
  ]

  shared_expert-IsConsistent : IsConsistent (get_shared_expert_sharding_strategy s name)
  unfolding get_shared_expert_sharding_strategy
  shared_expert-IsConsistent = search (branch_rules, expert-IsConsistent)

  lm_head-IsConsistent : IsConsistent (get_lm_head_sharding_strategy s name)
  unfolding get_lm_head_sharding_strategy
  lm_head-IsConsistent = search branch_rules

  mlp-IsConsistent : IsConsistent (get_mlp_sharding_strategy s name)
  unfolding get_mlp_sharding_strategy
  mlp-IsConsistent = search branch_rules

  dispatch-IsConsistent :
      (embedding : ShardingStrategy → Text → ShardingInfo)
      → IsConsistent (embedding s name)
      → 0 < s.rank_info.tp_size
      → IsConsistent (dispatch embedding s name)
  unfolding dispatch
  dispatch-IsConsistent embedding h positive =
      search
        (
          branch_rules, attention-IsConsistent, expert-IsConsistent, shared_expert-IsConsistent,
          lm_head-IsConsistent, mlp-IsConsistent,
        )
        depth 20

  bailing_embedding-IsConsistent : IsConsistent (bailing_embedding_sharding_strategy s name)
  unfolding bailing_embedding_sharding_strategy
  bailing_embedding-IsConsistent = search branch_rules

  -- On a rank with a positive tensor-parallel size, the base class answers no_sharding with one
  -- shard, or another kind with at least two shards, whatever the parameter's name.
  pub get_sharding_strategy-IsConsistent :
      0 < s.rank_info.tp_size → IsConsistent (get_sharding_strategy s name)
  unfolding get_sharding_strategy get_embedding_sharding_strategy
  get_sharding_strategy-IsConsistent h =
      dispatch-IsConsistent get_embedding_sharding_strategy attention-IsConsistent h

  -- On a rank with a positive tensor-parallel size, the strategy of BailingMoeForCausalLM answers
  -- no_sharding with one shard, or another kind with at least two shards.
  pub bailing_sharding_strategy-IsConsistent :
      0 < s.rank_info.tp_size → IsConsistent (bailing_sharding_strategy s name)
  unfolding bailing_sharding_strategy
  bailing_sharding_strategy-IsConsistent h = search (
    branch_rules,
    dispatch-IsConsistent bailing_embedding_sharding_strategy bailing_embedding-IsConsistent h,
  )

  -- Where the class behind LinearMLAShardingMixin answers no_sharding with one shard, or another
  -- kind with at least two shards, so does the mixin.
  pub linear_mla_sharding_strategy-IsConsistent :
      (inner : ShardingStrategy → Text → ShardingInfo)
      → IsConsistent (inner s name)
      → IsConsistent (linear_mla_sharding_strategy inner s name)
  unfolding linear_mla_sharding_strategy
  linear_mla_sharding_strategy-IsConsistent inner h = search branch_rules

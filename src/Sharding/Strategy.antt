-- ===== src/Sharding/Strategy.antt =====
-- The strategy classes: `ShardingStrategy` and `LinearMLAShardingMixin` of
-- awex/sharding/param_sharding.py, and `BailingMoeShardingStrategy` of awex/models/ling.py. The
-- field device_backend is read by none of the methods and is left out, and so are **kwargs.
pub mod Laws
use asystem_awex.Prelude.{
  ℕ, ◌≡◌, refl, Bool, true, false, not, ◌&&◌, ◌||◌, List, [], ◌∷◌, ltb, ◌==◌, any, if◌then◌else◌,
}
use asystem_awex.Prelude.Equality.{Text, codes, list_beq, nat_eq}
use asystem_awex.Prelude.Texts.{contains}
use asystem_awex.Sharding.{
  ShardingType, no_sharding, tp_sharding, dp_tp_sharding, ep_sharding, ep_tp_sharding, RankInfo,
}
use asystem_awex.Sharding.Dims.{get_default_sharding_dim}

-- (sharding_type, sharding_dim, num_shards)
abbrev pub ShardingInfo : Type 0
ShardingInfo = ShardingType × ℕ × ℕ

pub record ShardingStrategy : Type 0 where
  pub engine_name : Text
  pub enable_dp_attention : Bool
  pub enable_dp_lm_head : Bool
  pub moe_dense_tp_size : ℕ
  pub tp_size : ℕ
  pub ep_size : ℕ
  pub ep_tp_size : ℕ
  pub rank_info : RankInfo

-- The test that the methods end in: shard over `size` ranks where there are several.
pub over : ShardingType → ℕ → ℕ → ShardingInfo
over kind dim size = if ltb 1 size then (kind, dim, size) else (no_sharding, dim, 1)

maybe_adjust_sharding_dim : ShardingStrategy → Text → ℕ → ℕ
maybe_adjust_sharding_dim s parameter_name sharding_dim = sharding_dim

dim_of : ShardingStrategy → Text → ℕ
unfolding maybe_adjust_sharding_dim get_default_sharding_dim
dim_of s name = maybe_adjust_sharding_dim s name (get_default_sharding_dim name)

pub get_attention_sharding_strategy : ShardingStrategy → Text → ShardingInfo
get_attention_sharding_strategy s name =
    if s.enable_dp_attention
    then over dp_tp_sharding (dim_of s name) s.rank_info.attn_tp_size
    else over tp_sharding (dim_of s name) s.rank_info.tp_size

pub get_mlp_sharding_strategy : ShardingStrategy → Text → ShardingInfo
get_mlp_sharding_strategy s name = over tp_sharding (dim_of s name) s.rank_info.tp_size

pub get_expert_sharding_strategy : ShardingStrategy → Text → ShardingInfo
get_expert_sharding_strategy s name =
    if ltb 1 s.ep_size && ltb 1 s.ep_tp_size
    then (ep_tp_sharding, dim_of s name, s.ep_tp_size)
    else if ltb 1 s.ep_size
    then (ep_sharding, dim_of s name, s.ep_size)
    else over tp_sharding (dim_of s name) s.tp_size

pub get_shared_expert_sharding_strategy : ShardingStrategy → Text → ShardingInfo
get_shared_expert_sharding_strategy s name =
    if list_beq s.engine_name (codes "mcore")
    then over tp_sharding (dim_of s name) s.tp_size
    else get_expert_sharding_strategy s name

pub get_lm_head_sharding_strategy : ShardingStrategy → Text → ShardingInfo
get_lm_head_sharding_strategy s name =
    if s.enable_dp_lm_head
    then over dp_tp_sharding (dim_of s name) s.rank_info.attn_tp_size
    else over tp_sharding (dim_of s name) s.rank_info.tp_size

-- The dispatch on the parameter's name. `embedding` is the method that a subclass overrides.
pub dispatch :
    (embedding : ShardingStrategy → Text → ShardingInfo) → ShardingStrategy → Text → ShardingInfo
dispatch embedding s name =
    if s.rank_info.tp_size == 1
    then (no_sharding, dim_of s name, 1)
    else if contains (codes "input_layernorm") name
        || contains (codes "post_attention_layernorm") name
    then (no_sharding, 0, 1)
    else if contains (codes "norm") name
    then (no_sharding, 0, 1)
    else if contains (codes "embedding") name
    then embedding s name
    else if contains (codes "lm_head") name
    then get_lm_head_sharding_strategy s name
    else if contains (codes "expert_bias") name
    then (no_sharding, 0, 1)
    else if contains (codes "shared_experts") name
    then get_shared_expert_sharding_strategy s name
    else if contains (codes "expert") name
    then get_expert_sharding_strategy s name
    else if contains (codes "gate.weight") name || contains (codes "router.weight") name
    then (no_sharding, 0, 1)
    else if contains (codes "mlp") name
    then get_mlp_sharding_strategy s name
    else if contains (codes "attention") name
    then get_attention_sharding_strategy s name
    else (tp_sharding, dim_of s name, s.rank_info.tp_size)

-- ShardingStrategy.get_embedding_sharding_strategy and get_sharding_strategy
pub get_embedding_sharding_strategy : ShardingStrategy → Text → ShardingInfo
get_embedding_sharding_strategy s name = get_attention_sharding_strategy s name

pub get_sharding_strategy : ShardingStrategy → Text → ShardingInfo
get_sharding_strategy s name = dispatch get_embedding_sharding_strategy s name

-- LinearMLAShardingMixin.get_sharding_strategy over the class `inner` behind it
pub linear_mla_sharding_strategy :
    (inner : ShardingStrategy → Text → ShardingInfo) → ShardingStrategy → Text → ShardingInfo
linear_mla_sharding_strategy inner s name =
    if any (λ key. contains key name)
      (codes "attention.kv_a_proj_with_mqa.weight"
        ∷ codes "attention.q_a_proj.weight"
        ∷ codes "attention.fused_qkv_a_proj_with_mqa.weight"
        ∷ codes "attention.kv_a_layernorm.weight"
        ∷ codes "attention.q_a_layernorm.weight"
        ∷ [])
    then (no_sharding, get_default_sharding_dim name, 1)
    else if contains (codes "attention.g_norm.weight") name
    then over tp_sharding (get_default_sharding_dim name) s.rank_info.tp_size
    else inner s name

-- BailingMoeShardingStrategy
pub bailing_embedding_sharding_strategy : ShardingStrategy → Text → ShardingInfo
bailing_embedding_sharding_strategy s name =
    if not s.enable_dp_attention && ltb 1 s.rank_info.tp_size
    then (tp_sharding, 0, s.rank_info.tp_size)
    else (no_sharding, 0, 1)

pub bailing_sharding_strategy : ShardingStrategy → Text → ShardingInfo
bailing_sharding_strategy s name =
    if list_beq s.engine_name (codes "mcore") && contains (codes "query_key_value") name
    then over tp_sharding 0 s.rank_info.attn_tp_size
    else dispatch bailing_embedding_sharding_strategy s name

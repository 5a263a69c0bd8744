-- ===== src/Examples/Units.antt =====
-- The theorems about metadata, sharding and shard offsets at small inputs.
use asystem_awex.Prelude.{
  ℕ, ◌+◌, ◌*◌, ◌≤◌, ◌<◌, ◌≡◌, refl, none, List, [], ◌∷◌, Bool, true, false, length, map, select,
  count_by, arith,
}
use asystem_awex.Prelude.Equality.{codes, nat_eq, list_eq}
use asystem_awex.Prelude.Result.{ok}
use asystem_awex.Prelude.Sort.{nat_ord, list_ord, pair_ord}
use asystem_awex.Sharding.{RankInfo}
use asystem_awex.Sharding.Strategy.{
  ShardingStrategy, get_sharding_strategy, bailing_sharding_strategy, linear_mla_sharding_strategy,
}
use asystem_awex.Sharding.Strategy.Laws.{
  IsConsistent, get_sharding_strategy-IsConsistent, bailing_sharding_strategy-IsConsistent,
  linear_mla_sharding_strategy-IsConsistent,
}
use asystem_awex.Sharding.Ranks.{
  ServerArgs, ModelContext, get_sglang_rank_info, get_sglang_rank_info-axes,
}
use asystem_awex.Meta.{ParameterMeta, on_rank, all_shards, to_local_parameter_meta}
use asystem_awex.Meta.Local.{with_engine_rank, to_local_parameter_meta-local}
use asystem_awex.Plan.Shards.{ShardOffset, OverlapRegion}
use asystem_awex.Plan.Overlap.{find_overlapping_regions}
use asystem_awex.Plan.Overlap.Regions.{covers, chosen, find_overlapping_regions-count}
use asystem_awex.Plan.Build.Valid.{place}
use asystem_awex.Examples.Data.{a_shard, row_shards, column_shards, infer_weight, a_builder}

local_example :
    (local : ParameterMeta) × (to_local_parameter_meta infer_weight 1 ≡ ok local)
    × (local.shards
        ≡ map (with_engine_rank 0) (select (on_rank 1) (all_shards infer_weight.replicas)))
    × (all_shards local.replicas ≡ local.shards)
    × (length local.shards ≤ 1)
    × (length local.replicas ≤ 1)
unfolding on_rank all_shards
local_example =
    to_local_parameter_meta-local infer_weight (a_shard 0 0 (2 ∷ 2 ∷ []) (0 ∷ 0 ∷ []))
      (a_shard 1 0 (2 ∷ 2 ∷ []) (2 ∷ 0 ∷ []) ∷ []) 1 refl (omega arith)

abbrev some_args : ServerArgs
some_args = record {
  dp_size = 1;
  ep_size = 2;
  enable_dp_attention = false;
  context_parallel_size = none;
  context_parallel_mode = none;
}

abbrev some_context : ModelContext
some_context = record {
  tp_size = 4;
  tp_rank = 3;
  pp_rank = 0;
  pp_size = 1;
  dp_size = 1;
  attn_tp_rank = 3;
  attn_tp_size = 4;
  attn_dp_rank = 0;
  world_size = 4;
  global_rank = 3;
  local_rank = 3;
  cp_size = none;
  cp_rank = none;
  cp_mode = none;
}

axes_example :
    (info : RankInfo) × (get_sglang_rank_info some_args some_context 0 ≡ ok info)
    × (info.ep_rank * info.ep_tp_size + info.ep_tp_rank ≡ 3)
    × (info.ep_tp_rank < info.ep_tp_size)
    × (info.ep_rank < 2)
axes_example =
    get_sglang_rank_info-axes some_args some_context 0 refl (omega arith) (omega arith) refl

abbrev some_rank_info : RankInfo
some_rank_info = record {
  tp_rank = 3;
  tp_size = 4;
  pp_rank = 0;
  pp_size = 1;
  dp_size = 1;
  dp_rank = 0;
  ep_rank = 1;
  ep_size = 2;
  ep_tp_rank = 1;
  ep_tp_size = 2;
  attn_tp_rank = 3;
  attn_tp_size = 4;
  attn_dp_rank = 0;
  world_size = 4;
  global_rank = 3;
  local_rank = 3;
  engine_rank = 0;
  is_infer = true;
  cp_rank = 0;
  cp_size = 1;
  cp_mode = codes "none";
}

abbrev some_strategy : ShardingStrategy
some_strategy = record {
  engine_name = codes "sglang";
  enable_dp_attention = false;
  enable_dp_lm_head = false;
  moe_dense_tp_size = 0;
  tp_size = 4;
  ep_size = 2;
  ep_tp_size = 2;
  rank_info = some_rank_info;
}

strategy_example :
    IsConsistent (get_sharding_strategy some_strategy (codes "model.layers.0.mlp.down_proj.weight"))
strategy_example =
    get_sharding_strategy-IsConsistent some_strategy (codes "model.layers.0.mlp.down_proj.weight")
      (omega arith)

bailing_example :
    IsConsistent (bailing_sharding_strategy some_strategy (codes "model.word_embeddings.weight"))
bailing_example =
    bailing_sharding_strategy-IsConsistent some_strategy (codes "model.word_embeddings.weight")
      (omega arith)

mixin_example : IsConsistent (
    linear_mla_sharding_strategy bailing_sharding_strategy some_strategy
      (codes "model.layers.0.attention.g_proj.weight"))
mixin_example =
    linear_mla_sharding_strategy-IsConsistent some_strategy
      (codes "model.layers.0.attention.g_proj.weight") bailing_sharding_strategy
      (bailing_sharding_strategy-IsConsistent some_strategy
        (codes "model.layers.0.attention.g_proj.weight") (omega arith))

abbrev any_shard : ShardOffset → Bool
any_shard s = true

abbrev row_offsets : List ShardOffset
row_offsets = map (place a_builder 0 true) row_shards

abbrev column_offsets : List ShardOffset
column_offsets = map (place a_builder 0 false) column_shards

count_example :
    (regions : List OverlapRegion) × (find_overlapping_regions row_offsets column_offsets
      ≡ ok regions)
    × ((index : List ℕ)
        → count_by (covers any_shard any_shard index) regions
          ≡ count_by (chosen index any_shard) row_offsets
            * count_by (chosen index any_shard) column_offsets)
count_example =
    find_overlapping_regions-count any_shard any_shard 2 row_offsets column_offsets
      (record { starts = refl; ends = refl }, (record { starts = refl; ends = refl }, tt))
      (record { starts = refl; ends = refl }, (record { starts = refl; ends = refl }, tt))

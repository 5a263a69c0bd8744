-- ===== src/Resolver.antt =====
-- `_build_params_meta` of ParamMetaResolver, awex/meta/meta_resolver.py: the shards that the workers
-- report are grouped into replicas, and each shard gets its offset in the whole parameter.
-- A shard is one object that lies in the parameter's list and in one replica; here it carries its
-- position in the list, and the offset that is written to it in its replica is read back by that
-- position. A dtype is its name, so the lookup of a torch.dtype by name is left out.
pub mod Offsets
pub mod Build
use asystem_awex.Prelude.{
  ℕ, zero, suc, ◌+◌, Bool, true, false, not, Option, none, some, List, [], ◌∷◌, ◌++◌, map, length,
  replicate, get_elem?, all, range, sum_by, ltb, ◌==◌, if◌then◌else◌,
}
use asystem_awex.Prelude.Equality.{Text, list_eq, nat_eq}
use asystem_awex.Prelude.Dict.{Dict, get, put, push, group_by, bucket, keys, values}
use asystem_awex.Prelude.Sort.{sort_on, nat_ord}
use asystem_awex.Prelude.Result.{
  Result, ok, err, Fault, index_error, assertion_error, value_error, key_error, guard, ◌>>=◌, ◌>>◌,
  collect,
}
use asystem_awex.Sharding.{
  ShardingType, no_sharding, tp_sharding, dp_tp_sharding, ep_sharding, ep_tp_sharding, RankInfo,
}
use asystem_awex.Sharding.Strategy.{ShardingInfo}
use asystem_awex.Meta.{ParameterShardMeta, ParameterReplicaMeta, ParameterMeta}

-- A dict of "params_meta", and one element of the list that the workers report.
pub record RawParam : Type 0 where
  pub name : Text
  pub shape : List ℕ
  pub numel : ℕ
  pub dtype : Text

pub record RawRank : Type 0 where
  pub rank_info : RankInfo
  pub params_meta : List RawParam

-- The default values of the dataclass stand for the fields that are not given.
shard_info : (default_mode : Text) → RankInfo → RawParam → ShardingInfo → ParameterShardMeta
shard_info default_mode rank param info = record {
  tp_rank = rank.tp_rank;
  attn_tp_rank = rank.attn_tp_rank;
  pp_rank = rank.pp_rank;
  ep_rank = rank.ep_rank;
  ep_tp_rank = rank.ep_tp_rank;
  global_rank = rank.global_rank;
  world_size = rank.world_size;
  engine_rank = rank.engine_rank;
  name = param.name;
  shape = param.shape;
  numel = param.numel;
  dtype = param.dtype;
  global_offset = [];
  sharding_type = info.0;
  num_shards = info.2;
  sharding_dim = info.1;
  cp_rank = 0;
  cp_size = 1;
  cp_mode = default_mode;
}

-- A shard with its position in the list of its parameter.
abbrev pub Tagged : Type 0
Tagged = ℕ × ParameterShardMeta

unfoldable pub tag_from : ℕ → List ParameterShardMeta → List Tagged
tag_from i [] = []
tag_from i (shard ∷ shards) = (i, shard) ∷ tag_from (i + 1) shards

-- `getattr(shard, rank_key)` for the key of the sharding type.
pub rank_key : ShardingType → Option (Tagged → ℕ)
rank_key no_sharding = none
rank_key tp_sharding = some (λ s. s.1.tp_rank)
rank_key dp_tp_sharding = some (λ s. s.1.attn_tp_rank)
rank_key ep_tp_sharding = some (λ s. s.1.ep_tp_rank)
rank_key ep_sharding = some (λ s. s.1.ep_rank)

-- The inner loop: the shard of every rank at one index.
pub pick_shard : Dict ℕ (List Tagged) → ℕ → ℕ → Result (List Tagged)
pick_shard rank_to_shards replica_idx rk = elim (get_elem? (bucket rank_to_shards rk) replica_idx) [
  | none ↦ err assertion_error
  | some shard ↦ ok (shard ∷ [])
]

pub replica_at : Dict ℕ (List Tagged) → ℕ → Result (List Tagged)
unfolding pick_shard
replica_at rank_to_shards replica_idx = do
  replica ←
      collect (pick_shard rank_to_shards replica_idx) (sort_on (λ rk. rk) (keys rank_to_shards))
  ok (sort_on (λ s. s.1.tp_rank) replica)

pub first_count : Dict ℕ (List Tagged) → Result ℕ
first_count [] = err index_error
first_count ((rk, shards) ∷ rest) = ok (length shards)

pub grouped_replicas : (Tagged → ℕ) → List Tagged → Result (List (List Tagged))
unfolding replica_at first_count
grouped_replicas key shards = do
  let rank_to_shards = group_by key shards
  num_replicas ← first_count rank_to_shards
  guard (all (λ l. length l == num_replicas) (values rank_to_shards)) assertion_error
  collect (λ idx. replica_at rank_to_shards idx >>= λ replica. ok (replica ∷ []))
      (range 0 num_replicas)

-- The replicas of one parameter.
unfoldable pub replicas_of : ShardingInfo → List Tagged → Result (List (List Tagged))
unfolding grouped_replicas rank_key
replicas_of (no_sharding, dim, num_shards) shards = ok (map (λ shard. shard ∷ []) shards)
replicas_of (kind, dim, num_shards) shards =
    if num_shards == 1
    then ok (shards ∷ [])
    else elim (rank_key kind) [ none ↦ err value_error | some key ↦ grouped_replicas key shards ]

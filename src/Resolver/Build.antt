-- ===== src/Resolver/Build.antt =====
-- The loops of `_build_params_meta`, awex/meta/meta_resolver.py.
pub mod Complete
use asystem_awex.Prelude.{
  ℕ, zero, suc, ◌+◌, Bool, true, false, Option, none, some, List, [], ◌∷◌, ◌++◌, map, length,
  sum_by, ◌==◌, if◌then◌else◌,
}
use asystem_awex.Prelude.Equality.{Text, list_eq, nat_eq}
use asystem_awex.Prelude.Dict.{Dict, get, put, push}
use asystem_awex.Prelude.Result.{
  Result, ok, err, Fault, index_error, key_error, ◌>>=◌, ◌>>◌, collect,
}
use asystem_awex.Sharding.{RankInfo}
use asystem_awex.Sharding.Strategy.{ShardingInfo}
use asystem_awex.Meta.{ParameterShardMeta, ParameterReplicaMeta, ParameterMeta}
use asystem_awex.Resolver.{RawParam, RawRank, shard_info, Tagged, tag_from, replicas_of}
use asystem_awex.Resolver.Offsets.{global_shape, place_replica}

-- param_shards and param_sharding_info
pub record Collected : Type 0 where
  pub param_shards : Dict Text (List ParameterShardMeta)
  pub param_sharding_info : Dict Text ShardingInfo

module _ (get_sharding_info : Text → RankInfo → RawParam → Result ShardingInfo)
    (default_mode : Text) where
  -- The loop over the parameters of a worker.
  unfoldable pub collect_params : RankInfo → List RawParam → Collected → Result Collected
  unfolding shard_info
  collect_params rank_info [] found = ok found
  collect_params rank_info (param ∷ params) found =
      get_sharding_info param.name rank_info param >>= λ info.
      collect_params rank_info params (record {
        param_shards =
            push found.param_shards param.name (shard_info default_mode rank_info param info);
        param_sharding_info = put found.param_sharding_info param.name info;
      })

  -- The loop over the workers.
  unfoldable pub collect_shards : List RawRank → Collected → Result Collected
  unfolding collect_params
  collect_shards [] found = ok found
  collect_shards (rank ∷ ranks) found =
      collect_params rank.rank_info rank.params_meta found >>= λ more. collect_shards ranks more

unfoldable pub first_shard : List Tagged → Result ParameterShardMeta
first_shard [] = err index_error
first_shard (shard ∷ shards) = ok shard.1

unfoldable pub first_replica_of : List (List Tagged) → Result (List Tagged)
first_replica_of [] = err index_error
first_replica_of (replica ∷ replicas) = ok replica

-- A shard of the parameter's own list, as the loop over its replica has left it.
unfoldable pub read_back : List (List Tagged) → Tagged → ParameterShardMeta
read_back [] (i, shard) = shard
read_back ([] ∷ replicas) (i, shard) = read_back replicas (i, shard)
read_back (((j, placed) ∷ replica) ∷ replicas) (i, shard) =
    let rest = read_back (replica ∷ replicas) (i, shard) in if j == i then placed else rest

unfoldable pub replica_meta : List Tagged → ParameterReplicaMeta
replica_meta replica = record { shards = map (λ s. s.1) replica }

-- for replica in replicas[name]
unfoldable pub place_all :
    (sharding_dim num_dims : ℕ) → List (List Tagged) → Result (List (List Tagged))
unfolding place_replica
place_all sharding_dim num_dims replicas =
    collect (λ replica. place_replica sharding_dim num_dims replica >>= λ r. ok (r ∷ [])) replicas

-- ParameterMeta(...)
unfoldable pub assembled :
    Text
    → ParameterShardMeta
    → List Tagged
    → List ℕ
    → List Tagged
    → List (List Tagged)
    → ParameterMeta
unfolding read_back replica_meta
assembled name first first_replica shape tagged placed = record {
  name = name;
  global_numel = sum_by (λ s. s.1.numel) first_replica;
  global_shape = shape;
  dtype = first.dtype;
  shards = map (read_back placed) tagged;
  replicas = map replica_meta placed;
}

-- The first loop over the parameters: the replicas.
pub record Grouped : Type 0 where
  pub name : Text
  pub tagged : List Tagged
  pub replicas : List (List Tagged)

unfoldable pub named_replicas :
    Dict Text ShardingInfo → Text × List ParameterShardMeta → Result (List Grouped)
unfolding replicas_of tag_from
named_replicas infos (name, shards) = elim (get infos name) [
  | none ↦ err key_error
  | some info ↦ replicas_of info (tag_from 0 shards) >>= λ replicas.
      ok (record { name = name; tagged = tag_from 0 shards; replicas = replicas } ∷ [])
]

-- The body of the second loop: the shape and the offsets of one parameter.
unfoldable pub parameter_meta : Grouped → Result ParameterMeta
unfolding first_shard first_replica_of assembled global_shape place_all
parameter_meta g = do
  first ← first_shard g.tagged
  let num_dims = length first.shape
  first_replica ← first_replica_of g.replicas
  shape ← global_shape first_replica first.sharding_dim num_dims
  placed ← place_all first.sharding_dim num_dims g.replicas
  ok (assembled g.name first first_replica shape g.tagged placed)

-- The abstract method _get_sharding_info and the default of a dataclass field are parameters.
unfoldable pub build_params_meta :
    (get_sharding_info : Text → RankInfo → RawParam → Result ShardingInfo) (default_mode : Text)
    → List RawRank
    → Result (List ParameterMeta)
unfolding collect_shards named_replicas parameter_meta
build_params_meta get_sharding_info default_mode all_params_raw_meta = do
  found ←
      collect_shards get_sharding_info default_mode all_params_raw_meta
        (record { param_shards = []; param_sharding_info = [] })
  replicas ← collect (named_replicas found.param_sharding_info) found.param_shards
  collect (λ g. parameter_meta g >>= λ meta. ok (meta ∷ [])) replicas

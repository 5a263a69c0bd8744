-- ===== src/Meta.antt =====
-- awex/meta/weight_meta.py: the metadata of a parameter, its shards and its replicas.
-- A torch.dtype is kept by its name. `Local` has the proofs about a rank's own view.
pub mod Local
use asystem_awex.Prelude.{
  ℕ, ◌*◌, ◌≡◌, Bool, true, false, Option, none, some, List, [], ◌∷◌, ◌++◌, map, length, ◌==◌, leb,
  select, sum_by, if◌then◌else◌,
}
use asystem_awex.Prelude.Equality.{Text}
use asystem_awex.Prelude.Result.{Result, ok, err, index_error, assertion_error, guard, ◌>>=◌, ◌>>◌}
use asystem_awex.Sharding.{ShardingType}

pub record ParameterShardMeta : Type 0 where
  pub tp_rank : ℕ
  pub attn_tp_rank : ℕ
  pub pp_rank : ℕ
  pub ep_rank : ℕ
  pub ep_tp_rank : ℕ
  pub global_rank : ℕ
  pub world_size : ℕ
  pub engine_rank : ℕ
  pub name : Text
  pub shape : List ℕ
  pub numel : ℕ
  pub dtype : Text
  pub global_offset : List ℕ
  pub sharding_type : ShardingType
  pub num_shards : ℕ
  pub sharding_dim : ℕ
  pub cp_rank : ℕ
  pub cp_size : ℕ
  pub cp_mode : Text

pub record ParameterReplicaMeta : Type 0 where
  pub shards : List ParameterShardMeta

pub record ParameterMeta : Type 0 where
  pub name : Text
  pub global_numel : ℕ
  pub global_shape : List ℕ
  pub dtype : Text
  pub shards : List ParameterShardMeta
  pub replicas : List ParameterReplicaMeta

-- The body of the inner loop of fast_copy_with_engine_rank: a new shard with every field copied.
pub copy_shard : ℕ → ParameterShardMeta → ParameterShardMeta
copy_shard engine_rank shard = record {
  tp_rank = shard.tp_rank;
  attn_tp_rank = shard.attn_tp_rank;
  pp_rank = shard.pp_rank;
  ep_rank = shard.ep_rank;
  ep_tp_rank = shard.ep_tp_rank;
  global_rank = shard.global_rank;
  world_size = shard.world_size;
  engine_rank = engine_rank;
  name = shard.name;
  shape = shard.shape;
  numel = shard.numel;
  dtype = shard.dtype;
  global_offset = shard.global_offset;
  sharding_type = shard.sharding_type;
  num_shards = shard.num_shards;
  sharding_dim = shard.sharding_dim;
  cp_rank = shard.cp_rank;
  cp_size = shard.cp_size;
  cp_mode = shard.cp_mode;
}

copy_replica : ℕ → ParameterReplicaMeta → ParameterReplicaMeta
copy_replica engine_rank replica = record { shards = map (copy_shard engine_rank) replica.shards }

-- The flat list is rebuilt from the replicas, in their order.
unfoldable pub all_shards : List ParameterReplicaMeta → List ParameterShardMeta
all_shards [] = []
all_shards (replica ∷ replicas) = replica.shards ++ all_shards replicas

pub fast_copy_with_engine_rank : ParameterMeta → ℕ → ParameterMeta
fast_copy_with_engine_rank meta engine_rank =
    let replicas = map (copy_replica engine_rank) meta.replicas in
    record {
      name = meta.name;
      global_numel = meta.global_numel;
      global_shape = meta.global_shape;
      dtype = meta.dtype;
      shards = all_shards replicas;
      replicas = replicas;
    }

unfoldable pub on_rank : ℕ → ParameterShardMeta → Bool
on_rank global_rank shard = shard.global_rank == global_rank

-- The loop over the replicas: one with exactly one shard on the rank is kept, one with none is
-- dropped, and any other fails the assertion.
filter_replicas : ℕ → List ParameterReplicaMeta → Result (List ParameterReplicaMeta)
filter_replicas global_rank [] = ok []
filter_replicas global_rank (replica ∷ replicas) =
    let mine = select (on_rank global_rank) replica.shards in
    let rest = filter_replicas global_rank replicas in
    if length mine == 1
    then (rest >>= λ kept. ok (record { shards = mine } ∷ kept))
    else (guard (length mine == 0) assertion_error >> rest)

-- to_local_parameter_meta for a known engine rank
local_meta : ParameterMeta → ℕ → ℕ → Result ParameterMeta
local_meta meta engine_rank global_rank = do
  let new_meta = fast_copy_with_engine_rank meta engine_rank
  let shards = select (on_rank global_rank) new_meta.shards
  filtered ← filter_replicas global_rank new_meta.replicas
  guard (leb (length shards) 1) assertion_error
  guard (leb (length filtered) 1) assertion_error
  ok (record new_meta { shards = shards; replicas = filtered })

-- `self.shards[0].engine_rank`
first_engine_rank : List ParameterShardMeta → Result ℕ
first_engine_rank [] = err index_error
first_engine_rank (shard ∷ shards) = ok shard.engine_rank

pub to_local_parameter_meta : ParameterMeta → ℕ → Result ParameterMeta
to_local_parameter_meta meta global_rank = do
  engine_rank ← first_engine_rank meta.shards
  local_meta meta engine_rank global_rank

-- `itemsize` stands for the attribute of torch.dtype.
unfoldable pub compute_total_model_size : (itemsize : Text → ℕ) → List ParameterMeta → ℕ
compute_total_model_size itemsize params_meta =
    sum_by (λ param. param.global_numel * itemsize param.dtype) params_meta

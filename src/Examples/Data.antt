-- ===== src/Examples/Data.antt =====
-- A model with one parameter of shape (4, 2): the inference engine cuts it in rows, the training
-- side in columns.
use asystem_awex.Prelude.{ℕ, ◌≡◌, refl, subst, true, some, List, [], ◌∷◌, arith, Each}
use asystem_awex.Prelude.Equality.{Text, codes, list_eq, nat_eq}
use asystem_awex.Prelude.Dict.{get}
use asystem_awex.Sharding.{tp_sharding}
use asystem_awex.Meta.{ParameterShardMeta, ParameterMeta}
use asystem_awex.Common.Keys.{key_mismatch}
use asystem_awex.Plan.Shards.{Builder, CommunicationOperation}
use asystem_awex.Plan.Build.{meta_dict}
use asystem_awex.Plan.Build.Valid.{IsBuilder, IsInfer, HasRank}
use asystem_awex.Plan.Build.Parameter.{IsParameter}
use asystem_awex.Plan.Build.Mapping.{IsModel}

abbrev pub weight_name : Text
weight_name = codes "w"

abbrev pub a_shard : (rank dim : ℕ) (shape offset : List ℕ) → ParameterShardMeta
a_shard rank dim shape offset = record {
  tp_rank = rank;
  attn_tp_rank = rank;
  pp_rank = 0;
  ep_rank = 0;
  ep_tp_rank = 0;
  global_rank = rank;
  world_size = 2;
  engine_rank = 0;
  name = weight_name;
  shape = shape;
  numel = 4;
  dtype = codes "bfloat16";
  global_offset = offset;
  sharding_type = tp_sharding;
  num_shards = 2;
  sharding_dim = dim;
  cp_rank = 0;
  cp_size = 1;
  cp_mode = [];
}

abbrev pub a_meta : List ParameterShardMeta → ParameterMeta
a_meta shards = record {
  name = weight_name;
  global_numel = 8;
  global_shape = 4 ∷ 2 ∷ [];
  dtype = codes "bfloat16";
  shards = shards;
  replicas = record { shards = shards } ∷ [];
}

abbrev pub row_shards : List ParameterShardMeta
row_shards = a_shard 0 0 (2 ∷ 2 ∷ []) (0 ∷ 0 ∷ []) ∷ a_shard 1 0 (2 ∷ 2 ∷ []) (2 ∷ 0 ∷ []) ∷ []

abbrev pub column_shards : List ParameterShardMeta
column_shards = a_shard 0 1 (4 ∷ 1 ∷ []) (0 ∷ 0 ∷ []) ∷ a_shard 1 1 (4 ∷ 1 ∷ []) (0 ∷ 1 ∷ []) ∷ []

abbrev pub infer_weight : ParameterMeta
infer_weight = a_meta row_shards

abbrev pub train_weight : ParameterMeta
train_weight = a_meta column_shards

abbrev pub a_builder : Builder
a_builder = record {
  infer_world_size = 2;
  train_world_size = 2;
  infer_instance_world_size = 2;
  num_infer_engines = 1;
  strict_param_key_match = true;
}

pub a_builder-IsBuilder : IsBuilder a_builder
a_builder-IsBuilder = record { engines = omega arith }

pub row_shards-IsInfer : Each (IsInfer a_builder 2) row_shards
row_shards-IsInfer = (
  record { dims = record { offset = refl; shape = refl }; rank = omega arith },
  (record { dims = record { offset = refl; shape = refl }; rank = omega arith }, tt),
)

pub column_shards-HasRank : Each (HasRank 2) column_shards
column_shards-HasRank =
    (record { offset = refl; shape = refl }, (record { offset = refl; shape = refl }, tt))

pub weight-IsParameter : IsParameter a_builder 2 infer_weight train_weight
weight-IsParameter = record {
  positive = omega arith;
  some_engine = omega arith;
  some_infer = refl;
  some_train = refl;
  infer = (record { some_shard = refl; shards = row_shards-IsInfer }, tt);
  train = (record { some_shard = refl; shards = column_shards-HasRank }, tt);
}

only_weight :
    (only meta : ParameterMeta) (name : Text)
    → get (meta_dict [] (only ∷ [])) name ≡ some meta
    → only ≡ meta
unfolding meta_dict
only_weight only meta name h = ground arith

pub weights-IsModel : IsModel a_builder (infer_weight ∷ []) (train_weight ∷ [])
unfolding meta_dict key_mismatch
weights-IsModel = record {
  keys_match = refl;
  dims = λ name. 2;
  valid = λ name i t hi ht.
      subst (λ x. IsParameter a_builder 2 x t) (only_weight infer_weight i name hi)
        (subst (λ x. IsParameter a_builder 2 infer_weight x) (only_weight train_weight t name ht)
          weight-IsParameter);
}

abbrev pub some_op : CommunicationOperation
some_op = record {
  send_rank = 2;
  send_shard_meta = a_shard 0 1 (4 ∷ 1 ∷ []) (0 ∷ 0 ∷ []);
  send_offset = 0 ∷ 0 ∷ [];
  recv_rank = 0;
  recv_shard_meta = a_shard 0 0 (2 ∷ 2 ∷ []) (0 ∷ 0 ∷ []);
  recv_offset = 0 ∷ 0 ∷ [];
  overlap_shape = 2 ∷ 1 ∷ [];
  train_slices = (0, 2) ∷ (0, 1) ∷ [];
  inf_slices = (0, 2) ∷ (0, 1) ∷ [];
}

-- ===== src/Sharding.antt =====
-- awex/sharding: how a parameter is cut over the ranks of an engine.
-- Here the data: `RankInfo` of rank_info.py and `ShardingType` of param_sharding.py.
-- `Dims` is the table of sharding dimensions, `Strategy` the strategy classes and `Ranks` the rank
-- information of the inference engines.
pub mod Dims
pub mod Strategy
pub mod Ranks
use asystem_awex.Prelude.{ℕ, Bool}
use asystem_awex.Prelude.Equality.{Text}

pub data ShardingType : Type 0 where
  no_sharding tp_sharding dp_tp_sharding ep_sharding ep_tp_sharding : ShardingType

pub record RankInfo : Type 0 where
  pub tp_rank : ℕ
  pub tp_size : ℕ
  pub pp_rank : ℕ
  pub pp_size : ℕ
  pub dp_size : ℕ
  pub dp_rank : ℕ
  pub ep_rank : ℕ
  pub ep_size : ℕ
  pub ep_tp_rank : ℕ
  pub ep_tp_size : ℕ
  pub attn_tp_rank : ℕ
  pub attn_tp_size : ℕ
  pub attn_dp_rank : ℕ
  pub world_size : ℕ
  pub global_rank : ℕ
  pub local_rank : ℕ
  pub engine_rank : ℕ
  pub is_infer : Bool
  pub cp_rank : ℕ
  pub cp_size : ℕ
  pub cp_mode : Text

-- ===== src/Transport/Comm.antt =====
-- `validate_rank_mappings` of awex/transfer/nccl_comm.py. Interleave and RoundRobin have the orders in
-- which the operations with several peers are issued and built.
pub mod Mappings
pub mod Interleave
pub mod RoundRobin
use asystem_awex.Prelude.{
  ℕ, zero, suc, ◌+◌, ◌-◌, ◌≡◌, Bool, true, false, not, Option, none, some, List, [], ◌∷◌, ◌++◌, map,
  length, get_elem?, sum_by, leb, ltb, ◌==◌, if◌then◌else◌,
}
use asystem_awex.Prelude.Equality.{nat_eq}
use asystem_awex.Prelude.Dict.{Dict, get, put, keys, values, group_by, bucket}
use asystem_awex.Prelude.Sort.{sort_on, nat_ord}
use asystem_awex.Prelude.Result.{Result, ok, err, value_error, guard, ◌>>=◌, ◌>>◌}

-- mapping.get(rank) == expected
pub maps_to : Dict ℕ ℕ → ℕ → ℕ → Bool
maps_to mapping rank expected = elim (get mapping rank) [
  | none ↦ false
  | some mapped_back ↦ mapped_back == expected
]

-- One of the two loops.
pub validate_inverse : (inverse : Dict ℕ ℕ) → Dict ℕ ℕ → Result (Unit {0})
unfolding maps_to
validate_inverse inverse [] = ok tt
validate_inverse inverse ((rank, image) ∷ mapping) =
    guard (maps_to inverse image rank) value_error >> validate_inverse inverse mapping

unfoldable pub validate_rank_mappings :
    (train_to_infer_device_mapping infer_to_train_device_mapping : Dict ℕ ℕ) → Result (Unit {0})
unfolding validate_inverse
validate_rank_mappings train_to_infer infer_to_train =
    validate_inverse infer_to_train train_to_infer >> validate_inverse train_to_infer infer_to_train

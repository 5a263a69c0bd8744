-- ===== src/Common/Check.antt =====
-- `check_train_infer_params_meta`, awex/util/common.py. What is only logged is left out; the loop over
-- the set of common names goes through them in the order of the inference side.
pub mod Agreement
use asystem_awex.Prelude.{
  ℕ, min, max, ◌%◌, Bool, true, false, not, ◌&&◌, Option, none, some, List, [], ◌∷◌, length, select,
  ◌==◌, if◌then◌else◌,
}
use asystem_awex.Prelude.Equality.{Text, list_beq, list_eq, nat_eq}
use asystem_awex.Prelude.Dict.{Dict, get, has, put, keys}
use asystem_awex.Prelude.Result.{
  Result, ok, err, value_error, key_error, index_error, zero_division_error, guard, ◌>>=◌, ◌>>◌,
}
use asystem_awex.Meta.{ParameterMeta, ParameterReplicaMeta}
use asystem_awex.Common.Keys.{key_mismatch}

-- {param_meta.name: param_meta for param_meta in metas}
pub by_name : Dict Text ParameterMeta → List ParameterMeta → Dict Text ParameterMeta
by_name d [] = d
by_name d (meta ∷ metas) = by_name (put d meta.name meta) metas

-- if fine fails: raise ValueError(error_msg) if raise_exception else logger.error(error_msg)
pub complain : (raise_exception fine : Bool) → Result (Unit {0})
complain raise_exception fine = guard (not (raise_exception && not fine)) value_error

-- len(param_meta.replicas[0].shards)
pub tp_size : List ParameterReplicaMeta → Result ℕ
tp_size [] = err index_error
tp_size (replica ∷ replicas) = ok (length replica.shards)

-- The body of the loop over common_params.
pub check_param : (raise_exception : Bool) → ParameterMeta → ParameterMeta → Result (Unit {0})
unfolding complain tp_size
check_param raise_exception infer train = do
  complain raise_exception (infer.global_numel == train.global_numel)
  complain raise_exception (list_beq infer.global_shape train.global_shape)
  complain raise_exception (list_beq infer.dtype train.dtype)
  infer_tp_size ← tp_size infer.replicas
  train_tp_size ← tp_size train.replicas
  let max_tp = max infer_tp_size train_tp_size
  let min_tp = min infer_tp_size train_tp_size
  guard (not (min_tp == 0)) zero_division_error
  complain raise_exception (max_tp % min_tp == 0)

pub find : Dict Text ParameterMeta → Text → Result ParameterMeta
find d name = elim (get d name) [ none ↦ err key_error | some meta ↦ ok meta ]

pub check_names :
    (raise_exception : Bool) (infer train : Dict Text ParameterMeta) → List Text → Result (Unit {0})
unfolding find check_param
check_names raise_exception infer train [] = ok tt
check_names raise_exception infer train (name ∷ names) = do
  infer_param_meta ← find infer name
  train_param_meta ← find train name
  check_param raise_exception infer_param_meta train_param_meta
  check_names raise_exception infer train names

unfoldable pub check_train_infer_params_meta :
    (training_params_meta infer_parameters_meta : List ParameterMeta)
    → (raise_exception strict_key_match : Bool) → Result (Unit {0})
unfolding by_name complain check_names
check_train_infer_params_meta training_params_meta infer_parameters_meta raise_exception
      strict_key_match =
    do
      let infer_meta = by_name [] infer_parameters_meta
      let train_meta = by_name [] training_params_meta
      complain raise_exception
          (not (key_mismatch strict_key_match (keys infer_meta) (keys train_meta)))
      check_names raise_exception infer_meta train_meta (select (has train_meta) (keys infer_meta))

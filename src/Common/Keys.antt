-- ===== src/Common/Keys.antt =====
-- `_is_allowed_infer_only_alias` of awex/util/common.py, and the comparison of the two key sets
-- that `check_train_infer_params_meta` and TransferPlanBuilder share.
use asystem_awex.Prelude.{Bool, false, not, ◌&&◌, ◌||◌, List, any, select, is_nil, if◌then◌else◌}
use asystem_awex.Prelude.Equality.{Text, codes, list_beq, nat_eq}

-- key in keys
abbrev pub member : List Text → Text → Bool
member keys key = any (λ k. list_beq k key) keys

pub is_allowed_infer_only_alias : Text → List Text → List Text → Bool
is_allowed_infer_only_alias extra_key infer_keys train_keys =
    if list_beq extra_key (codes "lm_head.weight")
    then member infer_keys (codes "model.embed_tokens.weight")
      && member train_keys (codes "model.embed_tokens.weight")
    else if list_beq extra_key (codes "model.embed_tokens.weight")
    then member infer_keys (codes "lm_head.weight") && member train_keys (codes "lm_head.weight")
    else false

-- train_keys - infer_keys, and infer_keys - train_keys
pub missing_on_infer : List Text → List Text → List Text
missing_on_infer infer_keys train_keys = select (λ k. not (member infer_keys k)) train_keys

pub extra_on_infer : List Text → List Text → List Text
extra_on_infer infer_keys train_keys = select (λ k. not (member train_keys k)) infer_keys

pub unsupported_extra_on_infer : List Text → List Text → List Text
unsupported_extra_on_infer infer_keys train_keys =
    select (λ k. not (is_allowed_infer_only_alias k infer_keys train_keys))
      (extra_on_infer infer_keys train_keys)

unfoldable pub key_mismatch : Bool → List Text → List Text → Bool
unfolding missing_on_infer extra_on_infer unsupported_extra_on_infer is_allowed_infer_only_alias
key_mismatch strict infer_keys train_keys =
    if strict
    then not (is_nil (missing_on_infer infer_keys train_keys))
      || not (is_nil (extra_on_infer infer_keys train_keys))
    else not (is_nil (missing_on_infer infer_keys train_keys))
      || not (is_nil (unsupported_extra_on_infer infer_keys train_keys))

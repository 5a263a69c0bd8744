-- ===== src/Sharding/Dims.antt =====
-- The table of sharding dimensions of awex/sharding/param_sharding.py.
use asystem_awex.Prelude.{ℕ, ◌≡◌, refl, Option, none, some, [], ◌∷◌, ◌++◌}
use asystem_awex.Prelude.Equality.{Text, codes, list_eq, nat_eq}
use asystem_awex.Prelude.Texts.{replace, split, last_two}
use asystem_awex.Prelude.Dict.{Dict, get}

unfoldable pub default_parameter_sharding_dimensions : Dict Text ℕ
default_parameter_sharding_dimensions =
    (codes "word_embeddings.weight", 0)
    ∷ (codes "lm_head.weight", 0)
    ∷ (codes "query_key_value.weight", 0)
    ∷ (codes "q_proj.weight", 0)
    ∷ (codes "k_proj.weight", 0)
    ∷ (codes "v_proj.weight", 0)
    ∷ (codes "g_proj.weight", 0)
    ∷ (codes "q_a_proj.weight", 0)
    ∷ (codes "q_b_proj.weight", 0)
    ∷ (codes "kv_a_proj_with_mqa.weight", 0)
    ∷ (codes "kv_b_proj.weight", 0)
    ∷ (codes "fused_qkv_a_proj_with_mqa.weight", 0)
    ∷ (codes "dense.weight", 1)
    ∷ (codes "o_proj.weight", 1)
    ∷ (codes "g_norm.weight", 0)
    ∷ (codes "query_key_value.bias", 0)
    ∷ (codes "q_proj.bias", 0)
    ∷ (codes "k_proj.bias", 0)
    ∷ (codes "v_proj.bias", 0)
    ∷ (codes "dense.bias", 0)
    ∷ (codes "experts.w13_weight", 0)
    ∷ (codes "experts.w2_weight", 1)
    ∷ (codes "gate_up_proj.weight", 0)
    ∷ (codes "gate_proj.weight", 0)
    ∷ (codes "up_proj.weight", 0)
    ∷ (codes "down_proj.weight", 1)
    ∷ (codes "gate_up_proj.bias", 0)
    ∷ (codes "gate_proj.bias", 0)
    ∷ (codes "up_proj.bias", 0)
    ∷ (codes "down_proj.bias", 0)
    ∷ []

-- `table[key] if key in table`, at most one name after the other, and 0 for an unknown parameter.
first_known : Option ℕ → Option ℕ → ℕ
first_known (some d) other = d
first_known none (some d) = d
first_known none none = 0

lookup_parts : Option Text × Option Text → ℕ
unfolding default_parameter_sharding_dimensions first_known
lookup_parts (some parent, some leaf) =
    first_known (get default_parameter_sharding_dimensions (parent ++ codes "." ++ leaf))
      (get default_parameter_sharding_dimensions leaf)
lookup_parts (none, some leaf) = first_known none (get default_parameter_sharding_dimensions leaf)
lookup_parts (_, none) = 0

unfoldable pub get_default_sharding_dim : Text → ℕ
unfolding lookup_parts
get_default_sharding_dim param_name =
    lookup_parts (last_two (split b'.' (replace (codes "_scale_inv") [] param_name)))

dims_qkv : get_default_sharding_dim (codes "model.layers.0.attention.query_key_value.weight") ≡ 0
unfolding get_default_sharding_dim
dims_qkv = refl

dims_dense : get_default_sharding_dim (codes "model.layers.0.attention.dense.weight_scale_inv") ≡ 1
unfolding get_default_sharding_dim
dims_dense = refl

-- The examples in the function's documentation give 1 and 2 for the two expert weights.
dims_experts :
    (get_default_sharding_dim (codes "model.layers.0.mlp.experts.w13_weight") ≡ 0)
    × (get_default_sharding_dim (codes "model.layers.0.mlp.experts.w2_weight") ≡ 1)
unfolding get_default_sharding_dim
dims_experts = (refl, refl)

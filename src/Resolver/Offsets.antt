-- ===== src/Resolver/Offsets.antt =====
-- The offsets: the second loop of `_build_params_meta`, awex/meta/meta_resolver.py.
pub mod Cover
pub mod Shape
use asystem_awex.Prelude.{
  ℕ, zero, suc, ◌+◌, Bool, true, false, Option, none, some, List, [], ◌∷◌, ◌++◌, map, length,
  replicate, get_elem?, range, sum_by, ◌==◌, if◌then◌else◌,
}
use asystem_awex.Prelude.Equality.{nat_eq}
use asystem_awex.Prelude.Result.{Result, ok, err, Fault, index_error, ◌>>=◌, ◌>>◌, collect}
use asystem_awex.Meta.{ParameterShardMeta}
use asystem_awex.Resolver.{Tagged}

-- shard.shape[i]
pub shape_at : ParameterShardMeta → ℕ → Result ℕ
shape_at shard i = elim (get_elem? shard.shape i) [ none ↦ err index_error | some n ↦ ok n ]

-- sum(shard.shape[i] for shard in first_replica)
pub sum_shapes : List Tagged → ℕ → Result ℕ
unfolding shape_at
sum_shapes [] i = ok 0
sum_shapes ((id, shard) ∷ shards) i =
    shape_at shard i >>= λ n. sum_shapes shards i >>= λ rest. ok (n + rest)

-- first_replica[0].shape[i]
pub first_shape_at : List Tagged → ℕ → Result ℕ
unfolding shape_at
first_shape_at [] i = err index_error
first_shape_at ((id, shard) ∷ shards) i = shape_at shard i

unfoldable pub global_shape : List Tagged → (sharding_dim num_dims : ℕ) → Result (List ℕ)
unfolding sum_shapes first_shape_at
global_shape first_replica sharding_dim num_dims =
    collect
      (λ i.
        (if i == sharding_dim then sum_shapes first_replica i else first_shape_at first_replica i)
        >>= λ n. ok (n ∷ []))
      (range 0 num_dims)

-- The inner loop over the dimensions: only the sharding dimension of `prev_offsets` moves, and to
-- read the shape behind its end raises. The other entries are written back as they were.
pub advance : (sharding_dim : ℕ) (prev_offsets shape : List ℕ) → Result (List ℕ)
advance sharding_dim [] shape = ok []
advance zero (p ∷ prev_offsets) (n ∷ shape) = ok ((p + n) ∷ prev_offsets)
advance zero (p ∷ prev_offsets) [] = err index_error
advance (suc dim) (p ∷ prev_offsets) (n ∷ shape) =
    advance dim prev_offsets shape >>= λ rest. ok (p ∷ rest)
advance (suc dim) (p ∷ prev_offsets) [] = advance dim prev_offsets [] >>= λ rest. ok (p ∷ rest)

-- The loop over the shards of a replica.
pub place_from : (sharding_dim : ℕ) (prev_offsets : List ℕ) → List Tagged → Result (List Tagged)
place_from sharding_dim prev_offsets [] = ok []
place_from sharding_dim prev_offsets ((id, shard) ∷ shards) =
    advance sharding_dim prev_offsets shard.shape >>= λ next.
    place_from sharding_dim next shards >>= λ rest.
    ok ((id, record shard { global_offset = prev_offsets }) ∷ rest)

-- One replica: the offsets start at zero.
unfoldable pub place_replica : (sharding_dim num_dims : ℕ) → List Tagged → Result (List Tagged)
unfolding place_from
place_replica sharding_dim num_dims shards = place_from sharding_dim (replicate num_dims 0) shards

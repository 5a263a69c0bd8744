-- ===== src/Resolver/Offsets/Shape.antt =====
-- The global shape of a replica whose shards have enough dimensions.
use asystem_awex.Prelude.{
  ℕ, zero, suc, ◌+◌, ◌≤◌, ◌<◌, ◌≡◌, refl, Bool, true, false, not, List, [], ◌∷◌, length, is_nil,
  range, get_elem?-lt, arith, Each, ◌==◌, if◌then◌else◌,
}
use asystem_awex.Prelude.Result.{ok, ◌>>=◌, collect_total}
use asystem_awex.Resolver.{Tagged}
use asystem_awex.Resolver.Offsets.{shape_at, sum_shapes, first_shape_at, global_shape}

abbrev pub HasDim : ℕ → Tagged → Type 0
HasDim n s = length s.1.shape ≡ n

module _ (n : ℕ) where
  shape_at_total : (s : Tagged) (i : ℕ) → HasDim n s → i < n → (m : ℕ) × (shape_at s.1 i ≡ ok m)
  unfolding shape_at
  shape_at_total (id, s) i h lt =
      let (m, found) = get_elem?-lt s.shape i (omega (arith, h)) in (m, rw (shape_at, found) refl)

  sum_shapes_total :
      (shards : List Tagged) (i : ℕ)
      → Each (HasDim n) shards
      → i < n
      → (m : ℕ) × (sum_shapes shards i ≡ ok m)
  unfolding sum_shapes
  sum_shapes_total [] i h lt = (0, refl)
  sum_shapes_total ((id, s) ∷ shards) i h lt =
      let (m, found) = shape_at_total (id, s) i h.0 lt in
      let (k, rest) = sum_shapes_total shards i h.1 lt in
      (m + k, rw (found, ◌>>=◌) (rw (rest, ◌>>=◌) refl))

  first_shape_at_total :
      (shards : List Tagged) (i : ℕ)
      → not (is_nil shards) ≡ true
      → Each (HasDim n) shards
      → i < n
      → (m : ℕ) × (first_shape_at shards i ≡ ok m)
  unfolding first_shape_at
  first_shape_at_total [] i some_shard h lt = cc
  first_shape_at_total ((id, s) ∷ shards) i some_shard h lt = shape_at_total (id, s) i h.0 lt

  range-below : (start k : ℕ) → start + k ≤ n → Each (λ i. i < n) (range start k)
  range-below start zero h = tt
  range-below start (suc k) h = (omega arith, range-below (start + 1) k (omega arith))

  one_dim :
      (shards : List Tagged) (dim i : ℕ)
      → not (is_nil shards) ≡ true
      → Each (HasDim n) shards
      → i < n
      → (same : Bool)
      → (ms : List ℕ) × (((if same then sum_shapes shards i else first_shape_at shards i) >>= λ m.
            ok (m ∷ []))
          ≡ ok ms)
  one_dim shards dim i some_shard h lt true =
      let (m, found) = sum_shapes_total shards i h lt in (m ∷ [], rw (found, ◌>>=◌) refl)
  one_dim shards dim i some_shard h lt false =
      let (m, found) = first_shape_at_total shards i some_shard h lt in
      (m ∷ [], rw (found, ◌>>=◌) refl)

  pub global_shape_total :
      (shards : List Tagged) (dim : ℕ)
      → not (is_nil shards) ≡ true
      → Each (HasDim n) shards
      → (shape : List ℕ) × (global_shape shards dim n ≡ ok shape)
  unfolding global_shape
  global_shape_total shards dim some_shard h =
      collect_total (λ i. i < n) _ (λ i lt. one_dim shards dim i some_shard h lt (i == dim))
        (range 0 n) (range-below 0 n (omega arith))

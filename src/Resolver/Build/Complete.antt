-- ===== src/Resolver/Build/Complete.antt =====
-- The metadata of a parameter is what the transfer plan assumes of the training side.
use asystem_awex.Prelude.{
  ℕ, zero, suc, ◌<◌, ◌≡◌, refl, sym, ◌∙◌, ap, subst, true, not, List, [], ◌∷◌, map, length, set,
  replicate, is_nil, arith, Each, count_by, if◌then◌else◌,
}
use asystem_awex.Prelude.Equality.{Text}
use asystem_awex.Prelude.Result.{ok, ◌>>=◌, collect-ok_cons}
use asystem_awex.Meta.{ParameterMeta}
use asystem_awex.Plan.Overlap.Dims.{inside}
use asystem_awex.Plan.Build.Counted.{stores}
use asystem_awex.Plan.Build.Parameter.{IsComplete}
use asystem_awex.Resolver.{Tagged}
use asystem_awex.Resolver.Offsets.{place_replica, global_shape}
use asystem_awex.Resolver.Offsets.Cover.{Agrees, total_width, stored_in, place_replica-covers}
use asystem_awex.Resolver.Offsets.Shape.{HasDim, global_shape_total}
use asystem_awex.Resolver.Build.{
  first_shard, first_replica_of, replica_meta, place_all, assembled, parameter_meta,
}

-- A replica with a shard, whose shards make up `total` in the sharding dimension.
pub record IsWhole (base : List ℕ) (dim total : ℕ) (replica : List Tagged) : Type 0 where
  pub some_shard : not (is_nil replica) ≡ true
  pub agrees : Each (Agrees base dim) replica
  pub width : total_width dim replica ≡ total

count_by-map_shard :
    (index : List ℕ) (placed : List Tagged)
    → count_by (stores index) (map (λ s. s.1) placed) ≡ stored_in index placed
count_by-map_shard index [] = refl
count_by-map_shard index (s ∷ placed) = ground (arith, count_by-map_shard index placed)

module _ (base : List ℕ) (dim total : ℕ) (fits : dim < length base) where
  record AllPlaced (replicas : List (List Tagged)) : Type 0 where
    placed : List (List Tagged)
    made : place_all dim (length base) replicas ≡ ok placed
    complete :
        (index : List ℕ)
        → inside (replicate (length base) 0) (set base dim total) index ≡ true
        → IsComplete index (map replica_meta placed)

  all_placed :
      (replicas : List (List Tagged)) → Each (IsWhole base dim total) replicas → AllPlaced replicas
  unfolding replica_meta place_all
  all_placed [] h = record { placed = []; made = refl; complete = λ index i. tt }
  all_placed (replica ∷ replicas) h =
      let (placed, made, covers) = place_replica-covers base dim replica fits h.0.agrees in
      let rest = all_placed replicas h.1 in
      let one : (place_replica dim (length base) replica >>= λ r. ok (r ∷ [])) ≡ ok (placed ∷ []) =
        rw (made, ◌>>=◌) refl in
      record {
        placed = placed ∷ rest.placed;
        made = collect-ok_cons _ replica replicas one rest.made;
        complete = λ index i. (
          count_by-map_shard index placed
              ∙ covers index
              ∙ ap (λ t. if inside (replicate (length base) 0) (set base dim t) index then 1 else 0)
                  h.0.width
              ∙ ap (λ here. if here then 1 else 0) i,
          rest.complete index i,
        );
      }

length-set : (xs : List ℕ) (i v : ℕ) → length (set xs i v) ≡ length xs
length-set [] i v = refl
length-set (x ∷ xs) zero v = refl
length-set (x ∷ xs) (suc i) v = ap suc (length-set xs i v)

Agrees-HasDim :
    (base : List ℕ) (dim : ℕ) (shards : List Tagged)
    → Each (Agrees base dim) shards
    → Each (HasDim (length base)) shards
Agrees-HasDim base dim [] h = tt
Agrees-HasDim base dim (s ∷ shards) h =
    (ap length h.0.shape ∙ length-set base dim h.0.width, Agrees-HasDim base dim shards h.1)

-- For a parameter with a first shard and with whole replicas, which have one base shape and one
-- total width in the sharding dimension of that shard: the metadata is made, and an index within
-- the whole shape is stored exactly once in every replica, which is what the transfer plan needs of
-- the training side to deliver the index.
pub parameter_meta-IsComplete :
    (name : Text) (first : Tagged) (rest replica : List Tagged) (replicas : List (List Tagged))
    (base : List ℕ) (total : ℕ) (index : List ℕ)
    → length first.1.shape ≡ length base
    → first.1.sharding_dim < length base
    → Each (IsWhole base first.1.sharding_dim total) (replica ∷ replicas)
    → inside (replicate (length base) 0) (set base first.1.sharding_dim total) index ≡ true
    → (meta : ParameterMeta) × (parameter_meta
          (record { name = name; tagged = first ∷ rest; replicas = replica ∷ replicas })
        ≡ ok meta)
      × IsComplete index meta.replicas
unfolding parameter_meta first_shard first_replica_of assembled
parameter_meta-IsComplete name (id, first) rest replica replicas base total index dims fits whole
      within =
    let dim = first.sharding_dim in
    let all = all_placed base dim total fits (replica ∷ replicas) whole in
    let (shape, shaped) =
      global_shape_total (length base) replica dim whole.0.some_shard
        (Agrees-HasDim base dim replica whole.0.agrees) in
    let shaped' = subst (λ n. global_shape replica dim n ≡ ok shape) (sym dims) shaped in
    let made =
      subst (λ n. place_all dim n (replica ∷ replicas) ≡ ok all.placed) (sym dims) all.made in
    (
      assembled name first replica shape ((id, first) ∷ rest) all.placed,
      rw (shaped', ◌>>=◌) (rw (made, ◌>>=◌) refl),
      all.complete index within,
    )

-- ===== src/Examples/Resolver.antt =====
-- The metadata of a parameter that two ranks hold in columns.
use asystem_awex.Prelude.{ℕ, ◌≡◌, refl, List, [], ◌∷◌, set, arith, Each, if◌then◌else◌}
use asystem_awex.Prelude.Result.{ok}
use asystem_awex.Sharding.{tp_sharding}
use asystem_awex.Meta.{ParameterMeta}
use asystem_awex.Plan.Build.Parameter.{IsComplete}
use asystem_awex.Plan.Overlap.Dims.{inside}
use asystem_awex.Resolver.{Tagged, replicas_of}
use asystem_awex.Resolver.Offsets.{place_replica}
use asystem_awex.Resolver.Offsets.Cover.{
  Agrees, along, total_width, stored_in, place_replica-covers,
}
use asystem_awex.Resolver.Build.{parameter_meta}
use asystem_awex.Resolver.Build.Complete.{parameter_meta-IsComplete}
use asystem_awex.Examples.Data.{a_shard, weight_name}

-- Reported by rank 1 before rank 0.
abbrev second_column : Tagged
second_column = (0, a_shard 1 1 (4 ∷ 1 ∷ []) [])

abbrev first_column : Tagged
first_column = (1, a_shard 0 1 (4 ∷ 1 ∷ []) [])

columns-Agrees : Each (Agrees (4 ∷ 2 ∷ []) 1) (first_column ∷ second_column ∷ [])
columns-Agrees = (record { width = 1; shape = refl }, (record { width = 1; shape = refl }, tt))

covers_example :
    (placed : List Tagged) × (place_replica 1 2 (first_column ∷ second_column ∷ []) ≡ ok placed)
    × ((index : List ℕ)
        → stored_in index placed ≡ (
            if inside
              (0 ∷ 0 ∷ [])
              (set (4 ∷ 2 ∷ []) 1 (total_width 1 (first_column ∷ second_column ∷ [])))
              index
            then 1
            else 0))
covers_example =
    place_replica-covers (4 ∷ 2 ∷ []) 1 (first_column ∷ second_column ∷ []) (omega arith)
      columns-Agrees

-- The two columns are one replica, in the order of their ranks.
columns_group :
    replicas_of (tp_sharding, 1, 2) (second_column ∷ first_column ∷ [])
    ≡ ok ((first_column ∷ second_column ∷ []) ∷ [])
unfolding replicas_of
columns_group = refl

complete_example :
    (meta : ParameterMeta) × (parameter_meta (record {
      name = weight_name;
      tagged = second_column ∷ first_column ∷ [];
      replicas = (first_column ∷ second_column ∷ []) ∷ [];
    })
      ≡ ok meta)
    × IsComplete (3 ∷ 1 ∷ []) meta.replicas
unfolding along
complete_example =
    parameter_meta-IsComplete weight_name second_column (first_column ∷ [])
      (first_column ∷ second_column ∷ []) [] (4 ∷ 2 ∷ []) 2 (3 ∷ 1 ∷ []) refl (omega arith)
      (record { some_shard = refl; agrees = columns-Agrees; width = refl }, tt) refl

-- ===== src/Plan/Build/Valid.antt =====
-- Metadata as the resolvers make it, and the offsets of its shards.
use asystem_awex.Prelude.{
  ℕ, zero, suc, ◌+◌, ◌*◌, ◌/◌, ◌≤◌, ◌<◌, ◌≡◌, refl, sym, ◌∙◌, ap, select-append, Bool, true, false,
  not, Option, List, [], ◌∷◌, map, length, arith, ◌==◌, ==_iff, leb, le→leb, is_nil, Each, select,
  if◌then◌else◌,
}
use asystem_awex.Prelude.Result.{
  Result, ok, value_error, guard, ◌>>=◌, collect-ok_cons, ok-injective, guard-eq-ok,
}
use asystem_awex.Meta.{ParameterShardMeta, ParameterReplicaMeta}
use asystem_awex.Plan.Shards.{
  ShardOffset, Builder, make_builder, compute_shard_transfer_rank, add_each, skips, buffer_width,
  shard_offset, shard_offsets, create_shard_offset_for_replica,
}
use asystem_awex.Plan.Overlap.Moves.{IsPlaced, IsReceiver, IsSender}

-- What a shard's offset is, where nothing is raised.
abbrev pub rank_of : Builder → ℕ → Bool → ParameterShardMeta → ℕ
rank_of b engine_rank true shard = shard.global_rank + engine_rank * b.infer_instance_world_size
rank_of b engine_rank false shard = shard.global_rank + b.infer_world_size

abbrev pub place : Builder → ℕ → Bool → ParameterShardMeta → ShardOffset
place b engine_rank is_infer shard = record {
  shard = shard;
  start_offset = shard.global_offset;
  end_offset = add_each shard.global_offset shard.shape;
  shape = shard.shape;
  rank = rank_of b engine_rank is_infer shard;
}

-- A shard with `n` dimensions.
pub record HasRank (n : ℕ) (shard : ParameterShardMeta) : Type 0 where
  pub offset : length shard.global_offset ≡ n
  pub shape : length shard.shape ≡ n

abbrev pub kept : Option ℕ → ShardOffset → Bool
kept wanted s = not (skips wanted s.rank)

rank_ok :
    (b : Builder) (engine_rank : ℕ) (is_infer : Bool) (shard : ParameterShardMeta)
    → (is_infer ≡ false → engine_rank ≡ 0)
    → compute_shard_transfer_rank b shard engine_rank is_infer
      ≡ ok (rank_of b engine_rank is_infer shard)
unfolding compute_shard_transfer_rank
rank_ok b engine_rank true shard h = refl
rank_ok b engine_rank false shard h = rw ((==_iff engine_rank 0).1 (h refl), guard)

nonempty : (xs : List ℕ) {n : ℕ} → 0 < n → length xs ≡ n → not (is_nil xs) ≡ true
nonempty [] h k = absurd (omega arith)
nonempty (x ∷ xs) h k = refl

same_dims : {m k n : ℕ} → m ≡ n → k ≡ n → (m == k) ≡ true
same_dims h k = ground arith

if_skips :
    (wanted : Option ℕ) (s : ShardOffset) (t : Result (List ShardOffset))
    → t ≡ ok (s ∷ [])
    → (if skips wanted s.rank then ok [] else t) ≡ ok (select (kept wanted) (s ∷ []))
if_skips wanted s t h = ground arith

width_ok : (n : ℕ) → 0 < n → (shards : List ParameterShardMeta) → buffer_width n shards ≡ ok n
unfolding buffer_width
width_ok zero h shards = absurd (omega arith)
width_ok (suc n) h shards = refl

module _ (b : Builder) (engine_rank : ℕ) (is_infer : Bool) (wanted : Option ℕ) (n : ℕ)
    (positive : 0 < n) (engine : is_infer ≡ false → engine_rank ≡ 0) where
  shard_offset-ok :
      (shard : ParameterShardMeta)
      → HasRank n shard
      → shard_offset b engine_rank is_infer wanted n shard
        ≡ ok (select (kept wanted) (place b engine_rank is_infer shard ∷ []))
  unfolding shard_offset
  shard_offset-ok shard h =
      let fits : leb (length shard.global_offset) n ≡ true = le→leb _ _ (omega (arith, h.offset)) in
      rw (nonempty shard.global_offset positive h.offset, guard)
        (rw (same_dims h.offset h.shape, guard)
          (rw (rank_ok b engine_rank is_infer shard engine, ◌>>=◌)
            (if_skips wanted (place b engine_rank is_infer shard) _ (rw (fits, guard) refl))))

  shard_offsets-ok :
      (shards : List ParameterShardMeta)
      → Each (HasRank n) shards
      → shard_offsets b engine_rank is_infer wanted n shards
        ≡ ok (select (kept wanted) (map (place b engine_rank is_infer) shards))
  unfolding shard_offsets
  shard_offsets-ok [] h = refl
  shard_offsets-ok (shard ∷ shards) h =
      collect-ok_cons _ shard shards (shard_offset-ok shard h.0) (shard_offsets-ok shards h.1)
      ∙ ap ok (
          sym (
            select-append (kept wanted) (place b engine_rank is_infer shard ∷ [])
              (map (place b engine_rank is_infer) shards)))

  -- On a replica with a shard, whose shards have one positive number of dimensions, and with the
  -- engine rank 0 on the training side: nothing is raised, and the offsets are those of the wanted
  -- shards, in order.
  pub create_shard_offset_for_replica-ok :
      (replica : ParameterReplicaMeta)
      → not (is_nil replica.shards) ≡ true
      → Each (HasRank n) replica.shards
      → create_shard_offset_for_replica b replica engine_rank is_infer wanted n
        ≡ ok (select (kept wanted) (map (place b engine_rank is_infer) replica.shards))
  unfolding create_shard_offset_for_replica
  create_shard_offset_for_replica-ok replica some_shard h =
      rw (width_ok n positive replica.shards, ◌>>=◌)
        (rw (some_shard, guard) (shard_offsets-ok replica.shards h))

place-IsPlaced :
    (b : Builder) (e n : ℕ) (is_infer : Bool) (shard : ParameterShardMeta)
    → HasRank n shard
    → IsPlaced n (place b e is_infer shard)
place-IsPlaced b e n is_infer shard h = record {
  start = refl;
  stop = refl;
  shape = refl;
  offset_dims = h.offset;
  shape_dims = h.shape;
}

-- Ranks of an inference shard below the world of one engine, and the engines within the world.
pub record IsInfer (b : Builder) (n : ℕ) (shard : ParameterShardMeta) : Type 0 where
  pub dims : HasRank n shard
  pub rank : shard.global_rank < b.infer_instance_world_size

-- The world of the inference side holds the worlds of its engines.
pub record IsBuilder (b : Builder) : Type 0 where
  pub engines : b.num_infer_engines * b.infer_instance_world_size ≤ b.infer_world_size

engines_fit : (e i : ℕ) → e * (i / e) ≤ i
engines_fit e i = grind arith

-- A builder that is made has room for the worlds of its engines.
pub make_builder-IsBuilder :
    (infer_world_size train_world_size num_infer_engines : ℕ) (strict : Bool) (b : Builder)
    → make_builder infer_world_size train_world_size num_infer_engines strict ≡ ok b
    → IsBuilder b
unfolding make_builder
make_builder-IsBuilder i t zero strict b h = cc
make_builder-IsBuilder i t (suc e) strict b h =
    let (_, made) = guard-eq-ok (not (suc e == 0)) value_error _ h in
    rw (← ok-injective made) (record { engines = engines_fit (suc e) i })

below_world : (e m w g total : ℕ) → g < w → e < m → m * w ≤ total → g + e * w < total
below_world e m w g total h k l = grind arith

pub receivers :
    (b : Builder) (e n : ℕ) (shards : List ParameterShardMeta)
    → IsBuilder b
    → e < b.num_infer_engines
    → Each (IsInfer b n) shards
    → Each (IsReceiver b n) (map (place b e true) shards)
receivers b e n [] ib lt h = tt
receivers b e n (shard ∷ shards) ib lt h = (
  record {
    placed = place-IsPlaced b e n true shard h.0.dims;
    rank =
        below_world e b.num_infer_engines b.infer_instance_world_size shard.global_rank
          b.infer_world_size h.0.rank lt ib.engines;
  },
  receivers b e n shards ib lt h.1,
)

pub senders :
    (b : Builder) (n : ℕ) (shards : List ParameterShardMeta)
    → Each (HasRank n) shards
    → Each (IsSender b n) (map (place b 0 false) shards)
senders b n [] h = tt
senders b n (shard ∷ shards) h = (
  record { placed = place-IsPlaced b 0 n false shard h.0; rank = omega arith },
  senders b n shards h.1,
)

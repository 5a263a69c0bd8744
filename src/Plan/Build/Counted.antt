-- ===== src/Plan/Build/Counted.antt =====
-- How often an element of the global tensor is transferred by the operations of one pair.
use asystem_awex.Prelude.{
  ℕ, ◌*◌, ◌<◌, ◌≡◌, refl, sym, ◌∙◌, ap, ap₂, Bool, true, false, ◌&&◌, none, some, List, [], ◌∷◌,
  map, arith, Each, count_by,
}
use asystem_awex.Prelude.Result.{ok, ok-injective}
use asystem_awex.Meta.{ParameterShardMeta, ParameterReplicaMeta}
use asystem_awex.Plan.Shards.{CommunicationOperation, ShardOffset, OverlapRegion, Builder, add_each}
use asystem_awex.Plan.Overlap.{find_overlapping_regions, operation_of}
use asystem_awex.Plan.Overlap.Dims.{inside, HasDims}
use asystem_awex.Plan.Overlap.Regions.{covers, chosen, find_overlapping_regions-count}
use asystem_awex.Plan.Overlap.Moves.{
  receives, IsMove, IsRegion, IsReceiver, IsSender, IsPlaced-HasDims, receives-operation_of,
  find_overlapping_regions-IsRegion,
}
use asystem_awex.Plan.Build.{pair_plan}
use asystem_awex.Plan.Build.Valid.{rank_of, place, IsBuilder}
use asystem_awex.Plan.Build.Pair.{
  IsPair, operations-IsMove, concerns, infer_offsets, train_offsets, infer_receivers, train_senders,
  pair_plan-all, pair_plan-pruned,
}
use asystem_awex.Prelude.{select}

-- The element `index` of the global tensor is stored in the shard.
abbrev pub stores : List ℕ → ParameterShardMeta → Bool
stores index shard = inside shard.global_offset (add_each shard.global_offset shard.shape) index

-- A test of a shard together with the transfer rank that it has there.
abbrev pub Test : Type 0
Test = ℕ → ParameterShardMeta → Bool

-- The operation writes the element on a receiver that passes the test.
abbrev pub delivers : Test → List ℕ → CommunicationOperation → Bool
delivers p index op = p op.recv_rank op.recv_shard_meta && receives index op

-- A shard of the inference replica, on the engine, that passes the test and stores the element.
abbrev pub stored_at : Builder → ℕ → Test → List ℕ → ParameterShardMeta → Bool
stored_at b e p index shard = p (rank_of b e true shard) shard && stores index shard

abbrev any_sender : ShardOffset → Bool
any_sender s = true

IsReceiver-dims :
    (b : Builder) (n : ℕ) (l : List ShardOffset) → Each (IsReceiver b n) l → Each (HasDims n) l
IsReceiver-dims b n [] h = tt
IsReceiver-dims b n (s ∷ l) h = (IsPlaced-HasDims n s h.0.placed, IsReceiver-dims b n l h.1)

IsSender-dims :
    (b : Builder) (n : ℕ) (l : List ShardOffset) → Each (IsSender b n) l → Each (HasDims n) l
IsSender-dims b n [] h = tt
IsSender-dims b n (s ∷ l) h = (IsPlaced-HasDims n s h.0.placed, IsSender-dims b n l h.1)

abbrev receiver_test : Test → ShardOffset → Bool
receiver_test p s = p s.rank s.shard

drop_sender : (u v : Bool) → (u && v) ≡ ((u && true) && v)
drop_sender u v = ground arith

module _ (p : Test) (index : List ℕ) where
  delivers-operation_of :
      (b : Builder) (n : ℕ) (r : OverlapRegion)
      → IsRegion b n r
      → delivers p index (operation_of r) ≡ covers (receiver_test p) any_sender index r
  unfolding operation_of
  delivers-operation_of b n r h =
      ap (λ v. receiver_test p r.inference_shard && v) (receives-operation_of b n r h index)
      ∙ drop_sender (receiver_test p r.inference_shard) _

  count-operations :
      (b : Builder) (n : ℕ) (rs : List OverlapRegion)
      → Each (IsRegion b n) rs
      → count_by (delivers p index) (map operation_of rs)
        ≡ count_by (covers (receiver_test p) any_sender index) rs
  count-operations b n [] h = refl
  count-operations b n (r ∷ rs) h =
      rw (delivers-operation_of b n r h.0, count-operations b n rs h.1)

  count-receivers :
      (b : Builder) (e : ℕ) (shards : List ParameterShardMeta)
      → count_by (chosen index (receiver_test p)) (map (place b e true) shards)
        ≡ count_by (stored_at b e p index) shards
  count-receivers b e [] = refl
  count-receivers b e (s ∷ shards) = rw (count-receivers b e shards)

  count-senders :
      (b : Builder) (shards : List ParameterShardMeta)
      → count_by (chosen index any_sender) (map (place b 0 false) shards)
        ≡ count_by (stores index) shards
  count-senders b [] = refl
  count-senders b (s ∷ shards) = rw (count-senders b shards)

-- What the plan of one pair does.
pub record PairPlan (b : Builder) (e : ℕ) (inference training : ParameterReplicaMeta) : Type 0 where
  pub ops : List CommunicationOperation
  pub planned : pair_plan b none e inference training ≡ ok ops
  pub moving : Each (IsMove b) ops
  pub pruned :
      (rank : ℕ) → pair_plan b (some rank) e inference training ≡ ok (select (concerns b rank) ops)
  pub counted :
      (p : Test) (index : List ℕ)
      → count_by (delivers p index) ops
        ≡ count_by (stored_at b e p index) inference.shards
          * count_by (stores index) training.shards

module _ (b : Builder) (n e : ℕ) (inference training : ParameterReplicaMeta) (ib : IsBuilder b)
    (engine : e < b.num_infer_engines) (valid : IsPair b n inference training) where
  abbrev froms : List ShardOffset
  froms = train_offsets b n e inference training ib engine valid

  abbrev tos : List ShardOffset
  tos = infer_offsets b n e inference training ib engine valid

  to_receivers : Each (IsReceiver b n) tos
  to_receivers = infer_receivers b n e inference training ib engine valid

  from_senders : Each (IsSender b n) froms
  from_senders = train_senders b n e inference training ib engine valid

  counted_regions :
      (p : Test) (index : List ℕ) (rs : List OverlapRegion)
      → find_overlapping_regions tos froms ≡ ok rs
      → count_by (delivers p index) (map operation_of rs)
        ≡ count_by (stored_at b e p index) inference.shards
          * count_by (stores index) training.shards
  counted_regions p index rs found =
      let regions =
        find_overlapping_regions-IsRegion b n tos froms rs to_receivers from_senders found in
      let (rs', found', counts) =
        find_overlapping_regions-count (receiver_test p) any_sender n tos froms
          (IsReceiver-dims b n tos to_receivers) (IsSender-dims b n froms from_senders) in
      let same : rs ≡ rs' = ok-injective (sym found ∙ found') in
      count-operations p index b n rs regions
      ∙ ap (count_by (covers (receiver_test p) any_sender index)) same
      ∙ counts index
      ∙ ap₂ (λ k l. k * l) (count-receivers p index b e inference.shards)
          (count-senders p index b training.shards)

  -- On valid replicas the plan of a pair raises nothing and is as PairPlan says.
  pub pair_plan_lem : PairPlan b e inference training
  pair_plan_lem =
      let (rs, found, _) =
        find_overlapping_regions-count any_sender any_sender n tos froms
          (IsReceiver-dims b n tos to_receivers) (IsSender-dims b n froms from_senders) in
      record {
        ops = map operation_of rs;
        planned = pair_plan-all b n e inference training ib engine valid rs found;
        moving =
            operations-IsMove b n rs
              (find_overlapping_regions-IsRegion b n tos froms rs to_receivers from_senders found);
        pruned = λ rank. pair_plan-pruned b n e inference training ib engine valid rank rs found;
        counted = λ p index. counted_regions p index rs found;
      }

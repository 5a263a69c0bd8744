-- ===== src/Plan/Overlap.antt =====
-- `_find_overlapping_regions` and `_build_region_communication_plan` of TransferPlanBuilder,
-- awex/transfer/transfer_plan.py.
pub mod Dims
pub mod Regions
pub mod Slices
pub mod Moves
pub mod Pruned
use asystem_awex.Prelude.{
  ℕ, zero, suc, ◌+◌, ◌-◌, max, min, ◌≡◌, Bool, true, false, not, Option, none, some, List, [], ◌∷◌,
  ◌++◌, length, is_nil, ◌==◌, leb, ltb, if◌then◌else◌,
}
use asystem_awex.Prelude.Result.{
  Result, ok, err, Fault, value_error, index_error, assertion_error, guard, ◌>>=◌, ◌>>◌, collect,
}
use asystem_awex.Plan.Shards.{
  Slice, CommunicationOperation, ShardOffset, OverlapRegion, Builder, add_each,
}

-- A half-open box of indices, by its starts and its ends.
abbrev pub Box : Type 0
Box = List ℕ × List ℕ

abbrev pub cons_box : ℕ → ℕ → Option Box → Option Box
cons_box start end none = none
cons_box start end (some (starts, ends)) = some (start ∷ starts, end ∷ ends)

-- The loop over the dimensions of the inference shard: the overlap, or none from the first
-- dimension without one. To read behind the last dimension of a tuple is the IndexError.
pub overlap_dims : (starts_i ends_i starts_t ends_t : List ℕ) → Result (Option Box)
overlap_dims [] ends_i starts_t ends_t = ok (some ([], []))
overlap_dims (a ∷ starts_i) (b ∷ ends_i) (c ∷ starts_t) (d ∷ ends_t) =
    let rest = overlap_dims starts_i ends_i starts_t ends_t in
    if leb (min b d) (max a c)
    then ok none
    else (rest >>= λ box. ok (cons_box (max a c) (min b d) box))
overlap_dims _ _ _ _ = err index_error

pub region_of : ShardOffset → ShardOffset → Option Box → List OverlapRegion
region_of inference training none = []
region_of inference training (some (starts, ends)) =
    record {
      inference_shard = inference;
      training_shard = training;
      overlap_start = starts;
      overlap_end = ends;
    }
    ∷ []

-- The body of the two loops, for one pair of shards.
pub pair_region : ShardOffset → ShardOffset → Result (List OverlapRegion)
pair_region i t = do
  box ← overlap_dims i.start_offset i.end_offset t.start_offset t.end_offset
  ok (region_of i t box)

pub find_overlapping_regions : List ShardOffset → List ShardOffset → Result (List OverlapRegion)
find_overlapping_regions inference_map training_map =
    collect (λ inf. collect (pair_region inf) training_map) inference_map

-- Point by point, for tuples of one length.
abbrev pub sub_each : List ℕ → List ℕ → List ℕ
sub_each (a ∷ xs) (b ∷ ys) = (a - b) ∷ sub_each xs ys
sub_each _ _ = []

-- slice(start, start + size)
abbrev pub slices : List ℕ → List ℕ → List Slice
slices (a ∷ xs) (n ∷ ys) = (a, a + n) ∷ slices xs ys
slices _ _ = []

-- `reused_shape_obj or [None] * len(region.inference_shard.shape)`
pub region_width : ℕ → ShardOffset → ℕ
region_width zero inference = length inference.shape
region_width (suc width) inference = suc width

-- The operation that is appended to the plan.
unfoldable pub operation_of : OverlapRegion → CommunicationOperation
operation_of region =
    let inference = region.inference_shard in
    let training = region.training_shard in
    let overlap_shape = sub_each region.overlap_end region.overlap_start in
    let inf_relative_offset = sub_each region.overlap_start inference.start_offset in
    let train_relative_offset = sub_each region.overlap_start training.start_offset in
    record {
      send_rank = training.rank;
      send_shard_meta = training.shard;
      send_offset = train_relative_offset;
      recv_rank = inference.rank;
      recv_shard_meta = inference.shard;
      recv_offset = inf_relative_offset;
      overlap_shape = overlap_shape;
      train_slices = slices train_relative_offset overlap_shape;
      inf_slices = slices inf_relative_offset overlap_shape;
    }

-- The buffer must have one entry for each dimension: the loops that fill it raise where it is
-- shorter, and the loops that read `overlap_shape` raise where it is longer.
pub build_region_communication_plan :
    Builder → ℕ → OverlapRegion → Result (List CommunicationOperation)
unfolding operation_of
build_region_communication_plan b reused region = do
  let op = operation_of region
  guard (region_width reused region.inference_shard == length region.overlap_start) index_error
  guard (not (op.send_rank == op.recv_rank)) assertion_error
  guard (leb b.infer_world_size op.send_rank) assertion_error
  guard (ltb op.recv_rank b.infer_world_size) assertion_error
  ok (op ∷ [])

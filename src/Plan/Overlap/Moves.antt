-- ===== src/Plan/Overlap/Moves.antt =====
-- The operation of a region moves the elements of the region, within the bounds of both shards.
use asystem_awex.Prelude.{
  ℕ, zero, suc, ◌≤◌, ◌<◌, ◌≡◌, refl, sym, subst, ◌∙◌, ap, Bool, true, not, Option, none, some, List,
  [], ◌∷◌, length, arith, ◌==◌, leb, ltb, le→leb, lt→ltb, Each,
}
use asystem_awex.Prelude.Result.{ok, guard, >>=-eq-ok, ok-injective, collect-Each}
use asystem_awex.Plan.Shards.{CommunicationOperation, ShardOffset, OverlapRegion, Builder, add_each}
use asystem_awex.Plan.Overlap.{
  Box, overlap_dims, region_of, pair_region, find_overlapping_regions, sub_each, slices,
  region_width, operation_of, build_region_communication_plan,
}
use asystem_awex.Plan.Overlap.Dims.{inside, HasDims, Aligned-of_lengths}
use asystem_awex.Plan.Overlap.Slices.{
  BoxFits, FitsBoth, overlap_dims-FitsBoth, places, places-slices, SlicesFit, slices-SlicesFit,
}

-- The global index `index` is written, or read, by the operation.
abbrev pub receives : List ℕ → CommunicationOperation → Bool
receives index op = places op.recv_shard_meta.global_offset op.inf_slices index

abbrev pub sends : List ℕ → CommunicationOperation → Bool
sends index op = places op.send_shard_meta.global_offset op.train_slices index

-- What an operation may do: read within a training shard, write within an inference shard, and
-- read of every element that it writes.
pub record IsMove (b : Builder) (op : CommunicationOperation) : Type 0 where
  pub recv_fits : SlicesFit op.inf_slices op.recv_shard_meta.shape
  pub send_fits : SlicesFit op.train_slices op.send_shard_meta.shape
  pub aligned : (index : List ℕ) → receives index op ≡ sends index op
  pub recv_rank : op.recv_rank < b.infer_world_size
  pub send_rank : b.infer_world_size ≤ op.send_rank

-- A shard offset as create_shard_offset_for_replica makes it.
pub record IsPlaced (n : ℕ) (s : ShardOffset) : Type 0 where
  pub start : s.start_offset ≡ s.shard.global_offset
  pub stop : s.end_offset ≡ add_each s.shard.global_offset s.shard.shape
  pub shape : s.shape ≡ s.shard.shape
  pub offset_dims : length s.shard.global_offset ≡ n
  pub shape_dims : length s.shard.shape ≡ n

length-add_each :
    (n : ℕ) (xs ys : List ℕ) → length xs ≡ n → length ys ≡ n → length (add_each xs ys) ≡ n
length-add_each n [] [] h k = h
length-add_each zero (x ∷ xs) ys h k = absurd (omega arith)
length-add_each (suc n) (x ∷ xs) (y ∷ ys) h k =
    omega (arith, length-add_each n xs ys (omega arith) (omega arith))
length-add_each n _ _ h k = absurd (omega arith)

pub IsPlaced-HasDims : (n : ℕ) (s : ShardOffset) → IsPlaced n s → HasDims n s
IsPlaced-HasDims n s p = record {
  starts = ap length p.start ∙ p.offset_dims;
  ends = ap length p.stop ∙ length-add_each n _ _ p.offset_dims p.shape_dims;
}

pub record IsRegion (b : Builder) (n : ℕ) (r : OverlapRegion) : Type 0 where
  pub receiver : IsPlaced n r.inference_shard
  pub sender : IsPlaced n r.training_shard
  pub recv_rank : r.inference_shard.rank < b.infer_world_size
  pub send_rank : b.infer_world_size ≤ r.training_shard.rank
  pub in_receiver :
      BoxFits r.inference_shard.start_offset r.inference_shard.end_offset r.overlap_start
        r.overlap_end
  pub in_sender :
      BoxFits r.training_shard.start_offset r.training_shard.end_offset r.overlap_start
        r.overlap_end

-- A shard offset of the inference side, and of the training side.
pub record IsReceiver (b : Builder) (n : ℕ) (s : ShardOffset) : Type 0 where
  pub placed : IsPlaced n s
  pub rank : s.rank < b.infer_world_size

pub record IsSender (b : Builder) (n : ℕ) (s : ShardOffset) : Type 0 where
  pub placed : IsPlaced n s
  pub rank : b.infer_world_size ≤ s.rank

module _ (b : Builder) (n : ℕ) where
  region_of-IsRegion :
      (i t : ShardOffset) (o : Option Box)
      → IsReceiver b n i
      → IsSender b n t
      → FitsBoth i.start_offset i.end_offset t.start_offset t.end_offset o
      → Each (IsRegion b n) (region_of i t o)
  unfolding region_of
  region_of-IsRegion i t none hi ht f = tt
  region_of-IsRegion i t (some (ss, es)) hi ht f = (
    record {
      receiver = hi.placed;
      sender = ht.placed;
      recv_rank = hi.rank;
      send_rank = ht.rank;
      in_receiver = f.0;
      in_sender = f.1;
    },
    tt,
  )

  pair_region-IsRegion :
      (i t : ShardOffset) (regions : List OverlapRegion)
      → IsReceiver b n i
      → IsSender b n t
      → pair_region i t ≡ ok regions
      → Each (IsRegion b n) regions
  unfolding pair_region
  pair_region-IsRegion i t regions hi ht h =
      let di = IsPlaced-HasDims n i hi.placed in
      let dt = IsPlaced-HasDims n t ht.placed in
      let al = Aligned-of_lengths n _ _ _ _ di.starts di.ends dt.starts dt.ends in
      let (o, e, e') = >>=-eq-ok (overlap_dims _ _ _ _) (λ box. ok (region_of i t box)) h in
      rw (← ok-injective e') (region_of-IsRegion i t o hi ht (overlap_dims-FitsBoth _ _ _ _ o al e))

  -- Every region that is found lies in both of its shards.
  pub find_overlapping_regions-IsRegion :
      (inference training : List ShardOffset) (regions : List OverlapRegion)
      → Each (IsReceiver b n) inference
      → Each (IsSender b n) training
      → find_overlapping_regions inference training ≡ ok regions
      → Each (IsRegion b n) regions
  unfolding find_overlapping_regions
  find_overlapping_regions-IsRegion inference training regions hi ht h =
      collect-Each (IsReceiver b n) (IsRegion b n) _
        (λ i found ri e.
          collect-Each (IsSender b n) (IsRegion b n) (pair_region i)
            (λ t rs rt e'. pair_region-IsRegion i t rs ri rt e') training found ht e)
        inference regions hi h

BoxFits-length : (as' bs ss es : List ℕ) → BoxFits as' bs ss es → length ss ≡ length as'
BoxFits-length [] [] [] [] h = refl
BoxFits-length (a ∷ as') (b ∷ bs) (s ∷ ss) (e ∷ es) h = ap suc (BoxFits-length as' bs ss es h.3)
BoxFits-length _ _ _ _ h = absurd h

width_of_reused : (n : ℕ) (s : ShardOffset) → 0 < n → region_width n s ≡ n
unfolding region_width
width_of_reused zero s h = absurd (omega arith)
width_of_reused (suc n) s h = refl

same_width : {m n k : ℕ} → m ≡ k → n ≡ k → (m == n) ≡ true
same_width h k = ground arith

not_same : {m n : ℕ} → n < m → not (m == n) ≡ true
not_same h = ground arith

-- The slices of an operation, seen from a shard in which its region lies.
module _ (n : ℕ) (s : ShardOffset) (ss es : List ℕ) (p : IsPlaced n s)
    (fits : BoxFits s.start_offset s.end_offset ss es) where
  seen_from :
      (index : List ℕ)
      → places s.shard.global_offset (slices (sub_each ss s.start_offset) (sub_each es ss)) index
        ≡ inside ss es index
  seen_from index = rw (← p.start) (places-slices s.start_offset s.end_offset ss es index fits)

  within : SlicesFit (slices (sub_each ss s.start_offset) (sub_each es ss)) s.shard.shape
  within =
      slices-SlicesFit s.start_offset s.shard.shape ss es
        (subst (λ e. BoxFits s.start_offset e ss es)
          (p.stop ∙ ap (λ o. add_each o s.shard.shape) (sym p.start)) fits)
        (omega (arith, p.shape_dims, p.offset_dims, ap length p.start))

module _ (b : Builder) (n : ℕ) (r : OverlapRegion) (region : IsRegion b n r) where
  pub receives-operation_of :
      (index : List ℕ)
      → receives index (operation_of r) ≡ inside r.overlap_start r.overlap_end index
  unfolding operation_of
  receives-operation_of = seen_from n r.inference_shard _ _ region.receiver region.in_receiver

  sends-operation_of :
      (index : List ℕ) → sends index (operation_of r) ≡ inside r.overlap_start r.overlap_end index
  unfolding operation_of
  sends-operation_of = seen_from n r.training_shard _ _ region.sender region.in_sender

  pub operation_of-IsMove : IsMove b (operation_of r)
  operation_of-IsMove = record {
    recv_fits =
        unfold operation_of in within n r.inference_shard _ _ region.receiver region.in_receiver;
    send_fits = unfold operation_of in within n r.training_shard _ _ region.sender region.in_sender;
    aligned = λ index. receives-operation_of index ∙ sym (sends-operation_of index);
    recv_rank = unfold operation_of in region.recv_rank;
    send_rank = unfold operation_of in region.send_rank;
  }

  -- No check of _build_region_communication_plan fails on a region that was found.
  pub build_region-ok : 0 < n → build_region_communication_plan b n r ≡ ok (operation_of r ∷ [])
  unfolding build_region_communication_plan
  build_region-ok positive =
      let wide : (region_width n r.inference_shard == length r.overlap_start) ≡ true =
        same_width (width_of_reused n r.inference_shard positive) (
          BoxFits-length _ _ _ _ region.in_receiver
          ∙ ap length region.receiver.start
          ∙ region.receiver.offset_dims) in
      let apart : not (r.training_shard.rank == r.inference_shard.rank) ≡ true =
        not_same (omega (arith, region.send_rank, region.recv_rank)) in
      let above : leb b.infer_world_size r.training_shard.rank ≡ true =
        le→leb _ _ region.send_rank in
      let below : ltb r.inference_shard.rank b.infer_world_size ≡ true =
        lt→ltb _ _ region.recv_rank in
      rw (wide, guard) (rw (apart, guard) (rw (above, guard) (rw (below, guard) refl)))

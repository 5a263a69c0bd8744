-- ===== src/Plan/Overlap/Regions.antt =====
-- The regions of two lists of shards: one for each pair that overlaps, the intersection of the pair.
use asystem_awex.Prelude.{
  ℕ, suc, ◌+◌, ◌*◌, ◌≡◌, refl, ◌∙◌, Bool, true, false, ◌&&◌, Option, none, some, List, [], ◌∷◌,
  ◌++◌, arith, Each, count_by, count_by-append, if◌then◌else◌,
}
use asystem_awex.Prelude.Result.{ok, ◌>>=◌, collect, collect-ok_cons}
use asystem_awex.Plan.Shards.{ShardOffset, OverlapRegion}
use asystem_awex.Plan.Overlap.{Box, region_of, pair_region, find_overlapping_regions}
use asystem_awex.Plan.Overlap.Dims.{
  inside, inside_box, holds, HasDims, overlap_dims_total, inside-overlap_dims, Aligned-of_lengths,
}

-- The shards of a pair may be restricted by two tests, `p` of the receiver and `q` of the sender.
module _ (p q : ShardOffset → Bool) (index : List ℕ) where
  abbrev pub covers : OverlapRegion → Bool
  covers r =
      (p r.inference_shard && q r.training_shard) && inside r.overlap_start r.overlap_end index

abbrev pub chosen : List ℕ → (ShardOffset → Bool) → ShardOffset → Bool
chosen index test s = test s && holds index s

one_more :
    (h : Bool) (m n k l : ℕ)
    → k ≡ (if h then n else 0)
    → l ≡ m * n
    → k + l ≡ (if h then suc m else m) * n
one_more true m n k l p q = omega arith
one_more false m n k l p q = omega arith

module _ (p q : ShardOffset → Bool) (n : ℕ) where
  count-region_of :
      (i t : ShardOffset) (index : List ℕ) (o : Option Box)
      → inside_box index o ≡ (holds index i && holds index t)
      → count_by (covers p q index) (region_of i t o)
        ≡ (if chosen index p i then (if chosen index q t then 1 else 0) else 0)
  unfolding region_of
  count-region_of i t index none h = ground arith
  count-region_of i t index (some (starts, ends)) h = ground arith

  pair_region_lem :
      (i t : ShardOffset)
      → HasDims n i
      → HasDims n t
      → (regions : List OverlapRegion) × (pair_region i t ≡ ok regions)
        × ((index : List ℕ)
            → count_by (covers p q index) regions
              ≡ (if chosen index p i then (if chosen index q t then 1 else 0) else 0))
  unfolding pair_region
  pair_region_lem i t hi ht =
      let al = Aligned-of_lengths n _ _ _ _ hi.starts hi.ends ht.starts ht.ends in
      let (o, e) = overlap_dims_total _ _ _ _ al in
      (
        region_of i t o,
        rw (e, ◌>>=◌),
        λ index. count-region_of i t index o (inside-overlap_dims _ _ _ _ o index al e),
      )

  inner_lem :
      (i : ShardOffset)
      → HasDims n i
      → (ts : List ShardOffset) → Each (HasDims n) ts
      → (regions : List OverlapRegion) × (collect (pair_region i) ts ≡ ok regions)
        × ((index : List ℕ)
            → count_by (covers p q index) regions
              ≡ (if chosen index p i then count_by (chosen index q) ts else 0))
  inner_lem i hi [] h = ([], refl, λ index. ground arith)
  inner_lem i hi (t ∷ ts) h =
      let (r, e, c) = pair_region_lem i t hi h.0 in
      let (rs, es, cs) = inner_lem i hi ts h.1 in
      (
        r ++ rs,
        collect-ok_cons (pair_region i) t ts e es,
        λ index. ground (arith, count_by-append (covers p q index) r rs, c index, cs index),
      )

  -- Shards in one number of dimensions: find_overlapping_regions raises nothing, and an index of
  -- the global tensor lies in as many of the regions that it finds as there are pairs of an
  -- inference shard and a training shard that both hold the index. This is so too if only the
  -- inference shards that pass one test, and the training shards that pass another, are counted.
  pub find_overlapping_regions-count :
      (inference training : List ShardOffset)
      → Each (HasDims n) inference
      → Each (HasDims n) training
      → (regions : List OverlapRegion) × (find_overlapping_regions inference training ≡ ok regions)
        × ((index : List ℕ)
            → count_by (covers p q index) regions
              ≡ count_by (chosen index p) inference * count_by (chosen index q) training)
  unfolding find_overlapping_regions
  find_overlapping_regions-count [] training hi ht = ([], refl, λ index. omega arith)
  find_overlapping_regions-count (i ∷ inference) training hi ht =
      let (r, e, c) = inner_lem i hi.0 training ht in
      let (rs, es, cs) = find_overlapping_regions-count inference training hi.1 ht in
      (
        r ++ rs,
        collect-ok_cons (λ inf. collect (pair_region inf) training) i inference e es,
        λ index.
            count_by-append (covers p q index) r rs
            ∙ one_more (chosen index p i) (count_by (chosen index p) inference)
                (count_by (chosen index q) training) _ _ (c index) (cs index),
      )

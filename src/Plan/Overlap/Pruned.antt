-- ===== src/Plan/Overlap/Pruned.antt =====
-- The regions of selected shards are a selection of the regions.
use asystem_awex.Prelude.{
  ◌≡◌, refl, Bool, true, false, ◌&&◌, Option, none, some, List, [], ◌∷◌, select, select-append,
  Bool-cases, inl, inr, if◌then◌else◌,
}
use asystem_awex.Prelude.Result.{
  ok, >>=-eq-ok, ok-injective, collect, collect-cons, collect-ok_cons,
}
use asystem_awex.Plan.Shards.{ShardOffset, OverlapRegion}
use asystem_awex.Plan.Overlap.{Box, overlap_dims, region_of, pair_region, find_overlapping_regions}

module _ (p q : ShardOffset → Bool) where
  abbrev pub both : OverlapRegion → Bool
  both r = p r.inference_shard && q r.training_shard

  select_none :
      (i t : ShardOffset) (o : Option Box)
      → (p i && q t) ≡ false
      → select both (region_of i t o) ≡ []
  unfolding region_of
  select_none i t none h = refl
  select_none i t (some (ss, es)) h = rw (h, if◌then◌else◌)

  select_all :
      (i t : ShardOffset) (o : Option Box)
      → (p i && q t) ≡ true
      → select both (region_of i t o) ≡ region_of i t o
  unfolding region_of
  select_all i t none h = refl
  select_all i t (some (ss, es)) h = rw (h, if◌then◌else◌)

  pair_region-all :
      (i t : ShardOffset) (rs : List OverlapRegion)
      → pair_region i t ≡ ok rs
      → (p i && q t) ≡ true
      → select both rs ≡ rs
  unfolding pair_region
  pair_region-all i t rs h k =
      let (o, e, e') = >>=-eq-ok (overlap_dims _ _ _ _) (λ box. ok (region_of i t box)) h in
      rw (← ok-injective e') (select_all i t o k)

  pair_region-none :
      (i t : ShardOffset) (rs : List OverlapRegion)
      → pair_region i t ≡ ok rs
      → (p i && q t) ≡ false
      → select both rs ≡ []
  unfolding pair_region
  pair_region-none i t rs h k =
      let (o, e, e') = >>=-eq-ok (overlap_dims _ _ _ _) (λ box. ok (region_of i t box)) h in
      rw (← ok-injective e') (select_none i t o k)

  inner-none :
      (i : ShardOffset) (ts : List ShardOffset) (rs : List OverlapRegion)
      → p i ≡ false
      → collect (pair_region i) ts ≡ ok rs
      → select both rs ≡ []
  inner-none i [] rs h e = rw (← ok-injective e)
  inner-none i (t ∷ ts) rs h e =
      let r = collect-cons (pair_region i) t ts e in
      rw (
        r.joined,
        select-append both r.now r.later,
        pair_region-none i t r.now r.now_ok (rw (h, ◌&&◌)),
        inner-none i ts r.later h r.later_ok,
      )

  inner-some :
      (i : ShardOffset) (ts : List ShardOffset) (rs : List OverlapRegion)
      → p i ≡ true
      → collect (pair_region i) ts ≡ ok rs
      → collect (pair_region i) (select q ts) ≡ ok (select both rs)
  inner-some i [] rs h e = rw (← ok-injective e)
  inner-some i (t ∷ ts) rs h e =
      let r = collect-cons (pair_region i) t ts e in
      let rest = inner-some i ts r.later h r.later_ok in
      rw (r.joined, select-append both r.now r.later)
        (elim (Bool-cases (q t)) [
          | inl u ↦
              rw (u, if◌then◌else◌)
                (rw (pair_region-all i t r.now r.now_ok (rw (h, u, ◌&&◌)))
                  (collect-ok_cons (pair_region i) t (select q ts) r.now_ok rest))
          | inr u ↦
              rw (u, if◌then◌else◌)
                (rw (pair_region-none i t r.now r.now_ok (rw (h, u, ◌&&◌))) rest)
        ])

  -- Where nothing is raised for all shards, nothing is raised for selected ones.
  pub find_overlapping_regions-select :
      (inference training : List ShardOffset) (rs : List OverlapRegion)
      → find_overlapping_regions inference training ≡ ok rs
      → find_overlapping_regions (select p inference) (select q training) ≡ ok (select both rs)
  unfolding find_overlapping_regions
  find_overlapping_regions-select [] training rs e = rw (← ok-injective e)
  find_overlapping_regions-select (i ∷ inference) training rs e =
      let r = collect-cons (λ inf. collect (pair_region inf) training) i inference e in
      let rest = find_overlapping_regions-select inference training r.later r.later_ok in
      rw (r.joined, select-append both r.now r.later)
        (elim (Bool-cases (p i)) [
          | inl u ↦
              rw (u, if◌then◌else◌)
                (collect-ok_cons (λ inf. collect (pair_region inf) (select q training)) i
                  (select p inference) (inner-some i training r.now u r.now_ok) rest)
          | inr u ↦ rw (u, if◌then◌else◌) (rw (inner-none i training r.now u r.now_ok) rest)
        ])

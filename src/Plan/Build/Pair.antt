-- ===== src/Plan/Build/Pair.antt =====
-- The operations of one inference replica and its training replica.
use asystem_awex.Prelude.{
  ℕ, ◌<◌, ◌≡◌, refl, sym, ap, ◌∙◌, Bool, true, false, not, Option, none, some, List, [], ◌∷◌, map,
  arith, ◌==◌, ltb, is_nil, Each, select, Bool-cases, inl, inr, if◌then◌else◌,
}
use asystem_awex.Prelude.Result.{ok, ◌>>=◌, collect, collect-ok_cons}
use asystem_awex.Meta.{ParameterShardMeta, ParameterReplicaMeta}
use asystem_awex.Plan.Shards.{CommunicationOperation, ShardOffset, OverlapRegion, Builder}
use asystem_awex.Plan.Overlap.{
  find_overlapping_regions, operation_of, build_region_communication_plan,
}
use asystem_awex.Plan.Overlap.Moves.{
  IsMove, IsRegion, IsReceiver, IsSender, operation_of-IsMove, build_region-ok,
  find_overlapping_regions-IsRegion,
}
use asystem_awex.Plan.Overlap.Pruned.{both, find_overlapping_regions-select}
use asystem_awex.Plan.Build.{first_dims, infer_only, train_only, pair_plan}
use asystem_awex.Plan.Build.Valid.{
  place, kept, HasRank, IsInfer, IsBuilder, create_shard_offset_for_replica-ok, receivers, senders,
}

-- What the resolvers give: shards with one positive number of dimensions, on ranks of one engine.
pub record IsPair (b : Builder) (n : ℕ) (inference training : ParameterReplicaMeta) : Type 0 where
  pub positive : 0 < n
  pub infer_some : not (is_nil inference.shards) ≡ true
  pub train_some : not (is_nil training.shards) ≡ true
  pub infer : Each (IsInfer b n) inference.shards
  pub train : Each (HasRank n) training.shards

Each-dims :
    (b : Builder) (n : ℕ) (shards : List ParameterShardMeta)
    → Each (IsInfer b n) shards
    → Each (HasRank n) shards
Each-dims b n [] h = tt
Each-dims b n (s ∷ shards) h = (h.0.dims, Each-dims b n shards h.1)

first_dims-ok :
    (n : ℕ) (shards : List ParameterShardMeta)
    → not (is_nil shards) ≡ true
    → Each (HasRank n) shards
    → first_dims shards ≡ ok n
unfolding first_dims
first_dims-ok n [] h k = cc
first_dims-ok n (s ∷ shards) h k = ap ok k.0.shape

-- The loop over the regions.
operations-ok :
    (b : Builder) (n : ℕ) (rs : List OverlapRegion)
    → 0 < n
    → Each (IsRegion b n) rs
    → collect (build_region_communication_plan b n) rs ≡ ok (map operation_of rs)
operations-ok b n [] positive h = refl
operations-ok b n (r ∷ rs) positive h =
    collect-ok_cons (build_region_communication_plan b n) r rs (build_region-ok b n r h.0 positive)
      (operations-ok b n rs positive h.1)

pub operations-IsMove :
    (b : Builder) (n : ℕ) (rs : List OverlapRegion)
    → Each (IsRegion b n) rs
    → Each (IsMove b) (map operation_of rs)
operations-IsMove b n [] h = tt
operations-IsMove b n (r ∷ rs) h = (operation_of-IsMove b n r h.0, operations-IsMove b n rs h.1)

Each-select {ℓ κ} :
    {A : Type ℓ} (P : A → Type κ) (p : A → Bool) (xs : List A) → Each P xs → Each P (select p xs)
Each-select P p [] h = tt
Each-select P p (x ∷ xs) h = elim (Bool-cases (p x)) [
  | inl t ↦ rw (t, if◌then◌else◌) (h.0, Each-select P p xs h.1)
  | inr t ↦ rw (t, if◌then◌else◌) (Each-select P p xs h.1)
]

-- The operations that a rank takes part in: as receiver below the inference world, else as sender.
abbrev pub concerns : Builder → ℕ → CommunicationOperation → Bool
concerns b rank op =
    if ltb rank b.infer_world_size then op.recv_rank == rank else op.send_rank == rank

select-kept-none : (rs : List OverlapRegion) → select (both (kept none) (kept none)) rs ≡ rs
select-kept-none [] = refl
select-kept-none (r ∷ rs) = ap (◌∷◌ r) (select-kept-none rs)

select-map {ℓ κ} :
    {A : Type ℓ} {B : Type κ} (f : A → B) (p : B → Bool) (q : A → Bool)
    → ((a : A) → p (f a) ≡ q a)
    → (xs : List A) → select p (map f xs) ≡ map f (select q xs)
select-map f p q h [] = refl
select-map f p q h (x ∷ xs) = ground (arith, h x, select-map f p q h xs)

concerns-operation_of :
    (b : Builder) (rank : ℕ) (r : OverlapRegion)
    → concerns b rank (operation_of r)
      ≡ both (kept (infer_only b (some rank))) (kept (train_only b (some rank))) r
unfolding operation_of infer_only train_only
concerns-operation_of b rank r = ground arith

module _ (b : Builder) (n e : ℕ) (inference training : ParameterReplicaMeta) (ib : IsBuilder b)
    (engine : e < b.num_infer_engines) (valid : IsPair b n inference training) where
  abbrev pub infer_offsets : List ShardOffset
  infer_offsets = map (place b e true) inference.shards

  abbrev pub train_offsets : List ShardOffset
  train_offsets = map (place b 0 false) training.shards

  pub infer_receivers : Each (IsReceiver b n) infer_offsets
  infer_receivers = receivers b e n inference.shards ib engine valid.infer

  pub train_senders : Each (IsSender b n) train_offsets
  train_senders = senders b n training.shards valid.train

  -- The plan of a pair, for every rank or for one.
  pair_plan-eq :
      (wanted : Option ℕ) (rs : List OverlapRegion)
      → find_overlapping_regions infer_offsets train_offsets ≡ ok rs
      → pair_plan b wanted e inference training
        ≡ ok (
            map operation_of
              (select (both (kept (infer_only b wanted)) (kept (train_only b wanted))) rs))
  unfolding pair_plan
  pair_plan-eq wanted rs found =
      let regions =
        find_overlapping_regions-IsRegion b n infer_offsets train_offsets rs infer_receivers
          train_senders found in
      rw (first_dims-ok n training.shards valid.train_some valid.train, ◌>>=◌)
        (rw
          (
            create_shard_offset_for_replica-ok b e true (infer_only b wanted) n valid.positive
                (λ h. cc) inference valid.infer_some (Each-dims b n inference.shards valid.infer),
            ◌>>=◌,
          )
          (rw
            (
              create_shard_offset_for_replica-ok b 0 false (train_only b wanted) n valid.positive
                  (λ h. refl) training valid.train_some valid.train,
              ◌>>=◌,
            )
            (rw
              (
                find_overlapping_regions-select (kept (infer_only b wanted))
                    (kept (train_only b wanted)) infer_offsets train_offsets rs found,
                ◌>>=◌,
              )
              (operations-ok b n _ valid.positive (Each-select (IsRegion b n) _ rs regions)))))

  pub pair_plan-all :
      (rs : List OverlapRegion)
      → find_overlapping_regions infer_offsets train_offsets ≡ ok rs
      → pair_plan b none e inference training ≡ ok (map operation_of rs)
  pair_plan-all rs found =
      pair_plan-eq none rs found
      ∙ unfold infer_only train_only in ap (λ l. ok (map operation_of l)) (select-kept-none rs)

  -- The plan for one rank is the part of the whole plan in which the rank takes part.
  pub pair_plan-pruned :
      (rank : ℕ) (rs : List OverlapRegion)
      → find_overlapping_regions infer_offsets train_offsets ≡ ok rs
      → pair_plan b (some rank) e inference training
        ≡ ok (select (concerns b rank) (map operation_of rs))
  pair_plan-pruned rank rs found =
      pair_plan-eq (some rank) rs found
      ∙ sym (ap ok (select-map operation_of (concerns b rank) _ (concerns-operation_of b rank) rs))

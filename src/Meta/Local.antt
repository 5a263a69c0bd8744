-- ===== src/Meta/Local.antt =====
-- A rank's own view of a parameter, to_local_parameter_meta of awex/meta/weight_meta.py.
use asystem_awex.Prelude.{
  count_by-append, ℕ, ◌≤◌, ◌≡◌, ◌∙◌, refl, ap, inl, inr, true, false, List, [], ◌∷◌, ◌++◌, map,
  length, arith, ◌==◌, ==_iff, leb, leb→le, le→leb, select, count_by, Each, select-append,
  length-select, Bool-cases, if◌then◌else◌,
}
use mathlib.Core.List.{map-append}
use asystem_awex.Prelude.Result.{
  ok, assertion_error, guard, ◌>>=◌, ok-injective, >>=-eq-ok, guard-eq-ok,
}
use asystem_awex.Meta.{
  ParameterShardMeta, ParameterReplicaMeta, ParameterMeta, copy_shard, copy_replica, all_shards,
  fast_copy_with_engine_rank, on_rank, filter_replicas, local_meta, first_engine_rank,
  to_local_parameter_meta,
}

nil_of_length {ℓ} : {A : Type ℓ} (xs : List A) → (length xs == 0) ≡ true → xs ≡ []
nil_of_length [] h = refl
nil_of_length (x ∷ xs) h = absurd (ground arith)

zero_of_le_one : (n : ℕ) → n ≤ 1 → (n == 1) ≡ false → (n == 0) ≡ true
zero_of_le_one n h k = ground arith

-- What filter_replicas keeps are the shards of the rank, in order.
filter_replicas-shards :
    (r : ℕ) (reps : List ParameterReplicaMeta) {kept : List ParameterReplicaMeta}
    → filter_replicas r reps ≡ ok kept
    → all_shards kept ≡ select (on_rank r) (all_shards reps)
unfolding filter_replicas all_shards
filter_replicas-shards r [] h = rw (← ok-injective h)
filter_replicas-shards r (rep ∷ reps) {kept} h =
    let mine = select (on_rank r) rep.shards in
    elim (Bool-cases (length mine == 1)) [
      | inl one ↦
          let (more, e, e') = >>=-eq-ok (filter_replicas r reps) _ (rw (one, if◌then◌else◌) at h) in
          rw (← ok-injective e', select-append (on_rank r) rep.shards (all_shards reps))
            (ap (λ l. mine ++ l) (filter_replicas-shards r reps e))
      | inr other ↦
          let (t, e) =
            guard-eq-ok (length mine == 0) assertion_error (filter_replicas r reps)
              (rw (other, if◌then◌else◌) at h) in
          rw (select-append (on_rank r) rep.shards (all_shards reps), nil_of_length mine t)
            (filter_replicas-shards r reps e)
    ]

-- Every replica has at most one shard on the rank.
pub HasOneEach : ℕ → List ParameterReplicaMeta → Type 0
HasOneEach r reps = Each (λ rep. count_by (on_rank r) rep.shards ≤ 1) reps

filter_replicas_total :
    (r : ℕ) (reps : List ParameterReplicaMeta)
    → HasOneEach r reps
    → (kept : List ParameterReplicaMeta) × (filter_replicas r reps ≡ ok kept)
      × (length kept ≡ count_by (on_rank r) (all_shards reps))
unfolding filter_replicas all_shards HasOneEach
filter_replicas_total r [] h = ([], refl, refl)
filter_replicas_total r (rep ∷ reps) h =
    let (kept, e, n) = filter_replicas_total r reps h.1 in
    let mine = select (on_rank r) rep.shards in
    let size = length-select (on_rank r) rep.shards in
    let sum = count_by-append (on_rank r) rep.shards (all_shards reps) in
    elim (Bool-cases (length mine == 1)) [
      | inl one ↦ (
        record { shards = mine } ∷ kept,
        rw (one, if◌then◌else◌) (rw (e, ◌>>=◌)),
        omega (arith, (==_iff (length mine) 1).0 one),
      )
      | inr other ↦
          let is_zero = zero_of_le_one (length mine) (omega (arith, size, h.0)) other in
          (
            kept,
            rw (other, if◌then◌else◌) (rw (is_zero, guard) e),
            omega (arith, (==_iff (length mine) 0).0 is_zero),
          )
    ]

-- A copy keeps the rank, so the copies on a rank are the copies of the shards on it.
select-copy :
    (r e : ℕ) (shards : List ParameterShardMeta)
    → select (on_rank r) (map (copy_shard e) shards)
      ≡ map (copy_shard e) (select (on_rank r) shards)
unfolding copy_shard on_rank
select-copy r e [] = refl
select-copy r e (s ∷ shards) = ground (arith, select-copy r e shards)

count_by-copy :
    (r e : ℕ) (shards : List ParameterShardMeta)
    → count_by (on_rank r) (map (copy_shard e) shards) ≡ count_by (on_rank r) shards
unfolding copy_shard on_rank
count_by-copy r e [] = refl
count_by-copy r e (s ∷ shards) = ground (arith, count_by-copy r e shards)

all_shards-copy :
    (e : ℕ) (reps : List ParameterReplicaMeta)
    → all_shards (map (copy_replica e) reps) ≡ map (copy_shard e) (all_shards reps)
unfolding all_shards copy_replica
all_shards-copy e [] = refl
all_shards-copy e (rep ∷ reps) = rw (map-append, all_shards-copy e reps)

HasOneEach-copy :
    (r e : ℕ) (reps : List ParameterReplicaMeta)
    → HasOneEach r reps
    → HasOneEach r (map (copy_replica e) reps)
unfolding HasOneEach copy_replica
HasOneEach-copy r e [] h = tt
HasOneEach-copy r e (rep ∷ reps) h =
    (omega (arith, h.0, count_by-copy r e rep.shards), HasOneEach-copy r e reps h.1)

HasOneEach-of_count :
    (r : ℕ) (reps : List ParameterReplicaMeta)
    → count_by (on_rank r) (all_shards reps) ≤ 1
    → HasOneEach r reps
unfolding HasOneEach all_shards
HasOneEach-of_count r [] h = tt
HasOneEach-of_count r (rep ∷ reps) h =
    let sum = count_by-append (on_rank r) rep.shards (all_shards reps) in
    (omega arith, HasOneEach-of_count r reps (omega arith))

module _ (meta : ParameterMeta) (e r : ℕ) where
  abbrev copies : List ParameterReplicaMeta
  copies = map (copy_replica e) meta.replicas

  selected :
      select (on_rank r) (all_shards copies)
      ≡ map (copy_shard e) (select (on_rank r) (all_shards meta.replicas))
  selected = rw all_shards-copy (select-copy r e (all_shards meta.replicas))

  counted :
      count_by (on_rank r) (all_shards copies) ≡ count_by (on_rank r) (all_shards meta.replicas)
  counted = rw all_shards-copy (count_by-copy r e (all_shards meta.replicas))

local_meta-view :
    (meta local : ParameterMeta) (e r : ℕ)
    → local_meta meta e r ≡ ok local
    → (local.shards ≡ map (copy_shard e) (select (on_rank r) (all_shards meta.replicas)))
      × (all_shards local.replicas ≡ local.shards)
      × (length local.shards ≤ 1)
      × (length local.replicas ≤ 1)
unfolding local_meta fast_copy_with_engine_rank
local_meta-view meta local e r h =
    let shards = select (on_rank r) (all_shards (copies meta e r)) in
    let (filtered, kept, h1) = >>=-eq-ok (filter_replicas r (copies meta e r)) _ h in
    let (one_shard, h2) = guard-eq-ok (leb (length shards) 1) assertion_error _ h1 in
    let (one_replica, h3) = guard-eq-ok (leb (length filtered) 1) assertion_error _ h2 in
    rw (← ok-injective h3) (
      selected meta e r,
      filter_replicas-shards r (copies meta e r) kept,
      leb→le _ _ one_shard,
      leb→le _ _ one_replica,
    )

local_meta_total :
    (meta : ParameterMeta) (e r : ℕ)
    → count_by (on_rank r) (all_shards meta.replicas) ≤ 1
    → (local : ParameterMeta) × (local_meta meta e r ≡ ok local)
unfolding local_meta fast_copy_with_engine_rank
local_meta_total meta e r one =
    let few : count_by (on_rank r) (all_shards (copies meta e r)) ≤ 1 =
      omega (arith, counted meta e r) in
    let (kept, found, size) =
      filter_replicas_total r (copies meta e r) (HasOneEach-of_count r (copies meta e r) few) in
    let shards = select (on_rank r) (all_shards (copies meta e r)) in
    let one_shard : leb (length shards) 1 ≡ true =
      le→leb (length shards) 1
        (omega (arith, few, length-select (on_rank r) (all_shards (copies meta e r)))) in
    let one_replica : leb (length kept) 1 ≡ true =
      le→leb (length kept) 1 (omega (arith, few, size)) in
    (
      record (fast_copy_with_engine_rank meta e) { shards = shards; replicas = kept },
      rw (found, ◌>>=◌) (rw (one_shard, guard) (rw (one_replica, guard) refl)),
    )

-- When to_local_parameter_meta returns a view: at most one shard, which is the
-- copy of the parameter's shard on that rank, and the kept replicas hold just that shard.
to_local_parameter_meta-view :
    (meta local : ParameterMeta) (first : ParameterShardMeta) (rest : List ParameterShardMeta)
    (r : ℕ)
    → meta.shards ≡ first ∷ rest
    → to_local_parameter_meta meta r ≡ ok local
    → (local.shards
        ≡ map (copy_shard first.engine_rank) (select (on_rank r) (all_shards meta.replicas)))
      × (all_shards local.replicas ≡ local.shards)
      × (length local.shards ≤ 1)
      × (length local.replicas ≤ 1)
unfolding to_local_parameter_meta first_engine_rank
to_local_parameter_meta-view meta local first rest r start h =
    local_meta-view meta local first.engine_rank r (rw (ap first_engine_rank start, ◌>>=◌) at h)

-- A parameter with a shard, and with at most one shard on the rank in all its replicas, has a view
-- there: no assertion fails.
to_local_parameter_meta_total :
    (meta : ParameterMeta) (first : ParameterShardMeta) (rest : List ParameterShardMeta) (r : ℕ)
    → meta.shards ≡ first ∷ rest
    → count_by (on_rank r) (all_shards meta.replicas) ≤ 1
    → (local : ParameterMeta) × (to_local_parameter_meta meta r ≡ ok local)
unfolding to_local_parameter_meta first_engine_rank
to_local_parameter_meta_total meta first rest r start one =
    let (local, e) = local_meta_total meta first.engine_rank r one in
    (local, rw (ap first_engine_rank start, ◌>>=◌) e)

-- A shard with another engine rank, and every other field as it was.
abbrev pub with_engine_rank : ℕ → ParameterShardMeta → ParameterShardMeta
with_engine_rank e s = record s { engine_rank = e }

copy_shard_lem :
    (e : ℕ) (shards : List ParameterShardMeta)
    → map (copy_shard e) shards ≡ map (with_engine_rank e) shards
unfolding copy_shard
copy_shard_lem e [] = refl
copy_shard_lem e (s ∷ shards) = ap (◌∷◌ (with_engine_rank e s)) (copy_shard_lem e shards)

-- For a parameter with a shard, and with at most one shard on the rank in all its replicas: the
-- rank's own view is made, it has at most one shard, which is the parameter's shard on the rank with
-- the engine rank of the first shard and every other field as it was, and its replicas hold just
-- that shard.
pub to_local_parameter_meta-local :
    (meta : ParameterMeta) (first : ParameterShardMeta) (rest : List ParameterShardMeta) (r : ℕ)
    → meta.shards ≡ first ∷ rest
    → count_by (on_rank r) (all_shards meta.replicas) ≤ 1
    → (local : ParameterMeta) × (to_local_parameter_meta meta r ≡ ok local)
      × (local.shards
          ≡ map
              (with_engine_rank first.engine_rank)
              (select (on_rank r) (all_shards meta.replicas)))
      × (all_shards local.replicas ≡ local.shards)
      × (length local.shards ≤ 1)
      × (length local.replicas ≤ 1)
to_local_parameter_meta-local meta first rest r start one =
    let (local, made) = to_local_parameter_meta_total meta first rest r start one in
    let (shards, kept, one_shard, one_replica) =
      to_local_parameter_meta-view meta local first rest r start made in
    (
      local,
      made,
      shards ∙ copy_shard_lem first.engine_rank (select (on_rank r) (all_shards meta.replicas)),
      kept,
      one_shard,
      one_replica,
    )

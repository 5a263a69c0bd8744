-- ===== src/Sharding/Ranks.antt =====
-- `get_sglang_rank_info`, awex/sharding/sglang_sharding.py. The scheduler's arguments are attributes
-- of an object, an absent one is none; the model context is a dict with the keys below, of which
-- the last three may be missing (none) or None (some none).
use asystem_awex.Prelude.{
  ℕ, zero, suc, ◌+◌, ◌*◌, ◌/◌, ◌%◌, ◌<◌, ◌≡◌, refl, Bool, true, not, ◌||◌, Option, none, some, [],
  ◌∷◌, arith, ltb, ◌==◌, lt→ltb, if◌then◌else◌,
}
use asystem_awex.Prelude.Equality.{Text, codes}
use asystem_awex.Prelude.Result.{
  Result, ok, value_error, assertion_error, zero_division_error, guard, ◌>>=◌, ◌>>◌,
}
use asystem_awex.Sharding.{RankInfo}
use native.Mathlib.Nat.{mod-lt, div-add-mod', div-lt_iff_lt-mul, div-add-mod}

pub record ServerArgs : Type 0 where
  pub dp_size : ℕ
  pub ep_size : ℕ
  pub enable_dp_attention : Bool
  pub context_parallel_size : Option ℕ
  pub context_parallel_mode : Option Text

pub record ModelContext : Type 0 where
  pub tp_size : ℕ
  pub tp_rank : ℕ
  pub pp_rank : ℕ
  pub pp_size : ℕ
  pub dp_size : ℕ
  pub attn_tp_rank : ℕ
  pub attn_tp_size : ℕ
  pub attn_dp_rank : ℕ
  pub world_size : ℕ
  pub global_rank : ℕ
  pub local_rank : ℕ
  pub cp_size : Option (Option ℕ)
  pub cp_rank : Option (Option ℕ)
  pub cp_mode : Option (Option Text)

-- The expert-parallel axes of a tensor-parallel rank.
pub record ExpertAxes : Type 0 where
  pub ep_rank : ℕ
  pub ep_tp_size : ℕ
  pub ep_tp_rank : ℕ

pub expert_axes : (tp_size tp_rank ep_size : ℕ) → Result ExpertAxes
expert_axes tp_size tp_rank ep_size =
    let ep_tp_size = tp_size / ep_size in
    if ltb 1 ep_size
    then (guard (not (ep_tp_size == 0)) zero_division_error
        >> ok (record {
          ep_rank = tp_rank / ep_tp_size;
          ep_tp_size = ep_tp_size;
          ep_tp_rank = tp_rank % ep_tp_size;
        }))
    else (guard (ep_size == 1) assertion_error
        >> ok (record { ep_rank = 0; ep_tp_size = 1; ep_tp_rank = 0 }))

-- context.get(key, default)
abbrev get_or {ℓ} : {A : Type ℓ} → Option (Option A) → Option A → Option A
get_or none default = default
get_or (some value) default = value

-- int(value or n)
or_number : Option ℕ → ℕ → ℕ
or_number none n = n
or_number (some zero) n = n
or_number (some (suc m)) n = suc m

-- `if not cp_mode: cp_mode = "ring" if cp_size > 1 else "none"`
mode_or : Option Text → ℕ → Text
mode_or none cp_size = if ltb 1 cp_size then codes "ring" else codes "none"
mode_or (some []) cp_size = if ltb 1 cp_size then codes "ring" else codes "none"
mode_or (some (c ∷ mode)) cp_size = c ∷ mode

-- getattr(infer_engine_config, "context_parallel_size", 1)
size_attribute : Option ℕ → Option ℕ
size_attribute none = some 1
size_attribute (some n) = some n

-- RankInfo(...)
sglang_rank_info : ServerArgs → ModelContext → ℕ → ExpertAxes → RankInfo
unfolding or_number mode_or size_attribute
sglang_rank_info args ctx engine_rank axes =
    let cp_size = or_number (get_or ctx.cp_size (size_attribute args.context_parallel_size)) 1 in
    let cp_rank = or_number (get_or ctx.cp_rank (some 0)) 0 in
    record {
      tp_rank = ctx.tp_rank;
      tp_size = ctx.tp_size;
      pp_rank = ctx.pp_rank;
      pp_size = ctx.pp_size;
      dp_size = ctx.dp_size;
      dp_rank = 0;
      ep_rank = axes.ep_rank;
      ep_size = args.ep_size;
      ep_tp_rank = axes.ep_tp_rank;
      ep_tp_size = axes.ep_tp_size;
      attn_tp_rank = ctx.attn_tp_rank;
      attn_tp_size = ctx.attn_tp_size;
      attn_dp_rank = ctx.attn_dp_rank;
      world_size = ctx.world_size;
      global_rank = ctx.global_rank;
      local_rank = ctx.local_rank;
      engine_rank = engine_rank;
      is_infer = true;
      cp_rank = cp_rank;
      cp_size = cp_size;
      cp_mode = mode_or (get_or ctx.cp_mode args.context_parallel_mode) cp_size;
    }

pub get_sglang_rank_info : ServerArgs → ModelContext → ℕ → Result RankInfo
unfolding sglang_rank_info expert_axes
get_sglang_rank_info args ctx engine_rank = do
  guard (args.dp_size == 1 || args.enable_dp_attention) value_error
  axes ← expert_axes ctx.tp_size ctx.tp_rank args.ep_size
  ok (sglang_rank_info args ctx engine_rank axes)

-- What the axes promise.
record AxesOf (tp_rank ep_size : ℕ) (axes : ExpertAxes) : Type 0 where
  joined : axes.ep_rank * axes.ep_tp_size + axes.ep_tp_rank ≡ tp_rank
  inner : axes.ep_tp_rank < axes.ep_tp_size
  outer : axes.ep_rank < ep_size

in_group : (k e t r : ℕ) → 0 < k → e * k ≡ t → r < t → r / k < e
in_group k e t r h whole small = (div-lt_iff_lt-mul h).1 (omega (arith, whole))

some_in_each : (e t k : ℕ) {r : ℕ} → e * k ≡ t → r < t → 0 < k
some_in_each e t zero whole small = absurd (omega (arith, whole))
some_in_each e t (suc k) whole small = omega arith

expert_axes-AxesOf :
    (t r e : ℕ)
    → 1 < e
    → r < t
    → t % e ≡ 0
    → (axes : ExpertAxes) × (expert_axes t r e ≡ ok axes) × AxesOf r e axes
unfolding expert_axes
expert_axes-AxesOf t r e several small even =
    let whole : e * (t / e) ≡ t = omega (arith, div-add-mod t e, even) in
    let positive : 0 < t / e = some_in_each e t (t / e) whole small in
    let some_rank : not (t / e == 0) ≡ true = ground arith in
    (
      record { ep_rank = r / (t / e); ep_tp_size = t / e; ep_tp_rank = r % (t / e) },
      rw (lt→ltb _ _ several, if◌then◌else◌) (rw (some_rank, guard) refl),
      record {
        joined = div-add-mod' r (t / e);
        inner = mod-lt r positive;
        outer = in_group (t / e) e t r positive whole small;
      },
    )

-- On an engine that get_sglang_rank_info supports, with several groups of experts that divide the
-- tensor-parallel ranks evenly: the rank information is made, its two expert axes are in their
-- bounds, and together they are the tensor-parallel rank.
pub get_sglang_rank_info-axes :
    (args : ServerArgs) (ctx : ModelContext) (engine_rank : ℕ)
    → (args.dp_size == 1 || args.enable_dp_attention) ≡ true
    → 1 < args.ep_size
    → ctx.tp_rank < ctx.tp_size
    → ctx.tp_size % args.ep_size ≡ 0
    → (info : RankInfo) × (get_sglang_rank_info args ctx engine_rank ≡ ok info)
      × (info.ep_rank * info.ep_tp_size + info.ep_tp_rank ≡ ctx.tp_rank)
      × (info.ep_tp_rank < info.ep_tp_size)
      × (info.ep_rank < args.ep_size)
unfolding get_sglang_rank_info sglang_rank_info
get_sglang_rank_info-axes args ctx engine_rank supported several small even =
    let (axes, found, right) =
      expert_axes-AxesOf ctx.tp_size ctx.tp_rank args.ep_size several small even in
    (
      sglang_rank_info args ctx engine_rank axes,
      rw (supported, guard) (rw (found, ◌>>=◌) refl),
      right.joined,
      right.inner,
      right.outer,
    )

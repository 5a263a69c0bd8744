-- ===== src/Transport/Chunks/StepSize.antt =====
-- The step that a rank with a sample operation asks for.
use asystem_awex.Prelude.{
  ℕ, zero, suc, ◌+◌, ◌-◌, ◌*◌, ◌/◌, ◌<◌, ◌≤◌, ◌≡◌, refl, sym, ap, ap₂, ◌∙◌, max, List, [], ◌∷◌,
  ◌++◌, map, length, length-append, range, Each, arith,
}
use native.Mathlib.Nat.{lt-div-mul-add, mul-le-mul_right, div-mul-le_self}
use asystem_awex.Plan.Shards.{Slice, CommunicationOperation}
use asystem_awex.Transport.Chunks.{sliced_numel, elem_size, per_op_bytes, local_step_size}

-- The indices of the elements in a slice of a tensor.
pub spread : List ℕ → List (List ℕ) → List (List ℕ)
spread [] rest = []
spread (i ∷ is) rest = map (◌∷◌ i) rest ++ spread is rest

pub indices : List Slice → List (List ℕ)
unfolding spread
indices [] = [] ∷ []
indices ((start, stop) ∷ slices) = spread (range start (stop - start)) (indices slices)

length-range : (start n : ℕ) → length (range start n) ≡ n
length-range start zero = refl
length-range start (suc n) = ap suc (length-range (start + 1) n)

length-each : (i : ℕ) (rest : List (List ℕ)) → length (map (◌∷◌ i) rest) ≡ length rest
length-each i [] = refl
length-each i (x ∷ rest) = ap suc (length-each i rest)

length-spread :
    (is : List ℕ) (rest : List (List ℕ)) → length (spread is rest) ≡ length is * length rest
unfolding spread
length-spread [] rest = omega arith
length-spread (i ∷ is) rest =
    let both = length-append (map (◌∷◌ i) rest) (spread is rest) in
    let one = length-each i rest in let others = length-spread is rest in grind arith

-- No slice is empty.
abbrev pub NonEmpty : List Slice → Type 0
NonEmpty slices = Each (λ s. s.0 < s.1) slices

product-positive : (a b : ℕ) → 0 < a → 0 < b → 0 < a * b
product-positive a b h k = grind arith

sliced_numel_lem :
    (slices : List Slice)
    → NonEmpty slices
    → (sliced_numel slices ≡ length (indices slices)) × (0 < sliced_numel slices)
unfolding sliced_numel indices
sliced_numel_lem [] h = (refl, omega arith)
sliced_numel_lem ((start, stop) ∷ slices) h =
    let (rest, some_of) = sliced_numel_lem slices h.1 in
    let here = length-range start (stop - start) in
    let all = length-spread (range start (stop - start)) (indices slices) in
    let span : max (stop - start) 1 ≡ stop - start = omega (arith, h.0) in
    (
      ap₂ ◌*◌ (span ∙ sym here) rest ∙ sym all,
      product-positive (max (stop - start) 1) (sliced_numel slices) (omega arith) some_of,
    )

-- The step max 1 (c / p) is positive, above one it fits, and one more does not.
greatest :
    (c p : ℕ)
    → 0 < p
    → (0 < max 1 (c / p))
      × (1 < max 1 (c / p) → max 1 (c / p) * p ≤ c)
      × (c < (max 1 (c / p) + 1) * p)
greatest c p h =
    let low = div-mul-le_self c p in
    let high = lt-div-mul-add {a = c} {b = p} h in
    let more : (c / p + 1) * p ≤ (max 1 (c / p) + 1) * p = mul-le-mul_right p (omega arith) in
    let split : (c / p + 1) * p ≡ c / p * p + p = grind arith in
    (omega arith, λ k. let same : max 1 (c / p) ≡ c / p = omega arith in rw same low, omega arith)

-- For a sample operation none of whose slices is empty: with two bytes for each element in its
-- slices, the step is the greatest number of such operations that fit in a chunk, or one, where not
-- even two fit.
pub local_step_size-greatest :
    (chunk_bytes : ℕ) (sample_op : CommunicationOperation) (ops : List CommunicationOperation)
    → NonEmpty sample_op.train_slices
    → let step = local_step_size chunk_bytes (sample_op ∷ ops) in
      let bytes = 2 * length (indices sample_op.train_slices) in
      (0 < step) × (1 < step → step * bytes ≤ chunk_bytes) × (chunk_bytes < (step + 1) * bytes)
unfolding local_step_size per_op_bytes elem_size
local_step_size-greatest chunk_bytes sample_op ops h =
    let (same, some_of) = sliced_numel_lem sample_op.train_slices h in
    let bytes : per_op_bytes sample_op ≡ 2 * length (indices sample_op.train_slices) =
      omega (arith, same, some_of) in
    let positive : 0 < 2 * length (indices sample_op.train_slices) = omega (arith, same, some_of) in
    rw (local_step_size, bytes)
      (greatest chunk_bytes (2 * length (indices sample_op.train_slices)) positive)

-- ===== src/Transport/Recursive/Halves.antt =====
-- The halves of a partition: two ranks meet in a round when they lie in different halves of one
-- partition.
use asystem_awex.Prelude.{
  ℕ, ◌+◌, ◌-◌, ◌*◌, ◌/◌, ◌%◌, ◌≤◌, ◌<◌, ◌≡◌, refl, sym, ◌∙◌, Bool, true, false, ◌&&◌, ◌||◌, arith,
  ltb, leb, ◌==◌, inl, inr, if◌then◌else◌, Bool-cases, ap, ltb→lt, ltb→ge,
}
use native.Mathlib.Nat.{div-add-mod, mod-lt, mul-le-mul_left, div-eq_of_lt-le, mul-div_cancel}
use asystem_awex.Transport.Recursive.{Partition, partition_of}

-- Whether a rank is in the other half.
abbrev pub in_other_half : Partition → ℕ → Bool
in_other_half p j = leb p.other_half_start j && ltb j p.other_half_end

-- A number in a block is its start and a remainder.
pub record Block (P i : ℕ) : Type 0 where
  pub block : ℕ
  pub rest : ℕ
  pub small : rest < P
  pub parts : i ≡ P * block + rest
  pub is_block : i / P ≡ block

pub Block-of : (P i : ℕ) → 0 < P → Block P i
Block-of P i h = record {
  block = i / P;
  rest = i % P;
  small = mod-lt i h;
  parts = sym (div-add-mod i P);
  is_block = refl;
}

pub block_eq : (P i q r : ℕ) → i ≡ P * q + r → r < P → i / P ≡ q
block_eq P i q r e h = div-eq_of_lt-le P (omega arith) (omega arith)

half_first : (P i : ℕ) (b : Block (P * 2) i) → b.rest < P → i / P ≡ b.block * 2
half_first P i b h = block_eq P i (b.block * 2) b.rest (omega (arith, b.parts)) h

half_second : (P i : ℕ) (b : Block (P * 2) i) → P ≤ b.rest → i / P ≡ b.block * 2 + 1
half_second P i b h =
    block_eq P i (b.block * 2 + 1) (b.rest - P) (omega (arith, b.parts)) (omega (arith, b.small))

-- The half of a block of twice the size.
half_of :
    (P i : ℕ) (b : Block (P * 2) i)
    → i / P ≡ (if ltb b.rest P then b.block * 2 else b.block * 2 + 1)
half_of P i b = elim (Bool-cases (ltb b.rest P)) [
  | inl t ↦ half_first P i b (ltb→lt _ _ t) ∙ sym (rw (t, if◌then◌else◌) refl)
  | inr t ↦ half_second P i b (ltb→ge _ _ t) ∙ sym (rw (t, if◌then◌else◌) refl)
]

-- The partition of a rank in terms of its block.
partition_lem :
    (P i : ℕ) (b : Block (P * 2) i)
    → 0 < P
    → partition_of i (P * 2) ≡ (
        if ltb b.rest P
        then record {
          in_first_half = true;
          other_half_start = P * b.block * 2 + P;
          other_half_end = P * b.block * 2 + P * 2;
        }
        else record {
          in_first_half = false;
          other_half_start = P * b.block * 2;
          other_half_end = P * b.block * 2 + P;
        })
unfolding partition_of
partition_lem P i b h =
    let halved : P * 2 / 2 ≡ P = mul-div_cancel P (omega arith) in
    let base : b.block * (P * 2) ≡ P * b.block * 2 = omega arith in
    let offset : i - P * b.block * 2 ≡ b.rest = omega (arith, b.parts) in
    rw (halved, b.is_block, base, offset) refl

-- Ranks in different blocks are a block apart.
apart : (P a b : ℕ) → a < b → P * a + P ≤ P * b
apart P a b h = omega (arith, mul-le-mul_left {m = a + 1} {n = b} P (omega arith))

-- The other half of the rank whose block starts at X * 2, with a rest r.
abbrev half_at : (P X r : ℕ) → Partition
half_at P X r =
    if ltb r P
    then record {
      in_first_half = true;
      other_half_start = X * 2 + P;
      other_half_end = X * 2 + P * 2;
    }
    else record { in_first_half = false; other_half_start = X * 2; other_half_end = X * 2 + P }

abbrev quotient_at : (P a r : ℕ) → ℕ
quotient_at P a r = if ltb r P then a * 2 else a * 2 + 1

-- How the blocks of two ranks lie, with their starts.
data Order (P a b X Y : ℕ) : Type 0 where
  before : a < b → X + P ≤ Y → Order P a b X Y
  same : a ≡ b → X ≡ Y → Order P a b X Y
  after : b < a → Y + P ≤ X → Order P a b X Y

Order-of : (P a b : ℕ) → Order P a b (P * a) (P * b)
Order-of P a b = elim (Bool-cases (ltb a b)) [
  | inl t ↦ before (ltb→lt _ _ t) (apart P a b (ltb→lt _ _ t))
  | inr t ↦ elim (Bool-cases (ltb b a)) [
    | inl u ↦ after (ltb→lt _ _ u) (apart P b a (ltb→lt _ _ u))
    | inr u ↦
        let e : a ≡ b = omega (arith, ltb→ge _ _ t, ltb→ge _ _ u) in same e (ap (λ x. P * x) e)
  ]
]

module _ (P a b r s X Y j : ℕ) (r_small : r < P * 2) (s_small : s < P * 2)
    (at : j ≡ Y * 2 + s) where
  block_or_half :
      Order P a b X Y
      → (a == b) ≡ (in_other_half (half_at P X r) j || (quotient_at P a r == quotient_at P b s))
  block_or_half (before lt off) = ground arith
  block_or_half (same e off) = ground arith
  block_or_half (after lt off) = ground arith

  block_not_half :
      Order P a b X Y
      → (in_other_half (half_at P X r) j && (quotient_at P a r == quotient_at P b s)) ≡ false
  block_not_half (before lt off) = ground arith
  block_not_half (same e off) = ground arith
  block_not_half (after lt off) = ground arith

-- Two ranks have one block of the double size exactly where one is in the other half of the other
-- or they have one block of the single size, and never both.
pub half_or_block :
    (P i j : ℕ)
    → 0 < P
    → ((i / (P * 2) == j / (P * 2))
        ≡ (in_other_half (partition_of i (P * 2)) j || (i / P == j / P)))
      × ((in_other_half (partition_of i (P * 2)) j && (i / P == j / P)) ≡ false)
half_or_block P i j h =
    let u = Block-of (P * 2) i (omega arith) in
    let v = Block-of (P * 2) j (omega arith) in
    let order = Order-of P u.block v.block in
    let at : j ≡ P * v.block * 2 + v.rest = omega (arith, v.parts) in
    rw (half_of P i u, half_of P j v, partition_lem P i u h, u.is_block, v.is_block)
      (
        block_or_half P u.block v.block u.rest v.rest _ _ j u.small v.small at order,
        block_not_half P u.block v.block u.rest v.rest _ _ j u.small v.small at order,
      )

-- ===== src/Transport/Recursive/Facing.antt =====
-- Two ranks that meet in a round face each other: one is in the first half, the other in the second.
use asystem_awex.Prelude.{
  ℕ, ◌+◌, ◌-◌, ◌*◌, ◌/◌, ◌≤◌, ◌<◌, ◌≡◌, refl, sym, subst, ◌∙◌, ap, true, false, not, arith, ltb,
  if◌then◌else◌,
}
use native.Mathlib.Nat.{mul_comm}
use asystem_awex.Transport.Recursive.{Partition, partition_of}
use asystem_awex.Transport.Recursive.Halves.{in_other_half, Block-of, block_eq}

-- The partition of the rank X + r, of the block that starts at X, in halves of h.
abbrev facing_at : (P h X r : ℕ) → Partition
facing_at P h X r =
    if ltb r h
    then record { in_first_half = true; other_half_start = X + h; other_half_end = X + P }
    else record { in_first_half = false; other_half_start = X; other_half_end = X + h }

partition_at :
    (P i X r : ℕ) → i / P * P ≡ X → i ≡ X + r → partition_of i P ≡ facing_at P (P / 2) X r
unfolding partition_of
partition_at P i X r e at = let offset : i - X ≡ r = omega (arith, at) in rw (e, offset) refl

within :
    (P h X r j : ℕ) → h ≤ P → in_other_half (facing_at P h X r) j ≡ true → (X ≤ j) × (j < X + P)
within P h X r j le e = ground arith

faces :
    (P h X r s : ℕ)
    → h ≤ P
    → r < P
    → s < P
    → in_other_half (facing_at P h X r) (X + s) ≡ true
    → (in_other_half (facing_at P h X s) (X + r) ≡ true)
      × ((facing_at P h X s).in_first_half ≡ not (facing_at P h X r).in_first_half)
faces P h X r s le r_small s_small e = ground arith

-- For a partition of any size: where a rank reaches another in a round, the other reaches it in
-- the same round, and they are in opposite halves, so that one sends while the other receives.
pub partition_of-facing :
    (P i j : ℕ)
    → 0 < P
    → in_other_half (partition_of i P) j ≡ true
    → (in_other_half (partition_of j P) i ≡ true)
      × ((partition_of j P).in_first_half ≡ not (partition_of i P).in_first_half)
partition_of-facing P i j h e =
    let u = Block-of P i h in
    let half : P / 2 ≤ P = omega arith in
    let pi =
      partition_at P i (P * u.block) u.rest (ap (λ q. q * P) u.is_block ∙ mul_comm u.block P)
        u.parts in
    let there = subst (λ p. in_other_half p j ≡ true) pi e in
    let (low, high) = within P (P / 2) (P * u.block) u.rest j half there in
    let at : j ≡ P * u.block + (j - P * u.block) = omega (arith, low) in
    let small : j - P * u.block < P = omega (arith, low, high) in
    let pj =
      partition_at P j (P * u.block) (j - P * u.block)
        (ap (λ q. q * P) (block_eq P j u.block _ at small) ∙ mul_comm u.block P) at in
    let (back, opposite) =
      faces P (P / 2) (P * u.block) u.rest (j - P * u.block) half u.small small
        (subst (λ x. in_other_half (facing_at P (P / 2) (P * u.block) u.rest) x ≡ true) at there) in
    (
      subst (λ p. in_other_half p i ≡ true) (sym pj)
          (subst (λ x. in_other_half (facing_at P (P / 2) (P * u.block) (j - P * u.block)) x ≡ true)
            (sym u.parts) back),
      ap (λ p. p.in_first_half) pj ∙ opposite ∙ sym (ap (λ p. not p.in_first_half) pi),
    )

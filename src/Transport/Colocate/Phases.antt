-- ===== src/Transport/Colocate/Phases.antt =====
-- The two phases of the first stage, in which each rank sends to the next one of the ring.
use native.Mathlib.Nat.{mod-eq_of_lt, zero-mod}
use asystem_awex.Prelude.{
  ℕ, suc, ◌+◌, ◌-◌, ◌*◌, ◌/◌, ◌%◌, ◌<◌, ◌≡◌, refl, ap, ◌∙◌, subst, [], ◌∷◌, ◌++◌, arith,
  if◌then◌else◌,
}
use asystem_awex.Prelude.Result.{ok, ◌>>=◌}
use asystem_awex.Transport.Colocate.{
  send_to_rank, gcd, inverse_from, compute_two_phase_partition, Stage, send_list, recv_list,
  barrier, execute, two_phases, run_stage,
}

gcd-one : (w : ℕ) → gcd 2 w 1 ≡ 1
unfolding gcd
gcd-one w = let rest : w % 1 ≡ 0 = omega arith in rw (gcd, rest) refl

inverse-one : (m : ℕ) → inverse_from (suc (suc m)) 0 1 (suc (suc m)) ≡ ok 1
unfolding inverse_from
inverse-one m =
    let w = suc (suc m) in
    let none_yet : 0 % w ≡ 0 = zero-mod w in
    let one : 1 % w ≡ 1 = mod-eq_of_lt (omega arith) in
    rw (inverse_from, none_yet, one) (rw one refl)

-- In the first stage the partition of a rank is its parity.
partition-first :
    (rank m : ℕ)
    → rank < suc (suc m)
    → compute_two_phase_partition rank 1 (suc (suc m)) ≡ ok (rank % 2)
unfolding compute_two_phase_partition
partition-first rank m below =
    let w = suc (suc m) in
    let whole : w / 1 ≡ w = omega arith in
    let base : rank % 1 ≡ 0 = omega arith in
    let index : (rank - 0) / 1 * 1 ≡ rank = omega arith in
    let pos : rank % w ≡ rank = mod-eq_of_lt below in
    rw (compute_two_phase_partition, gcd-one w, whole, inverse-one m, ◌>>=◌, base, index, pos) refl

-- In the first stage of a ring of an even number of ranks, each rank and the one that it sends to
-- are in opposite partitions, so that the one sends in the phase in which the other receives.
pub compute_two_phase_partition-opposite :
    (k rank : ℕ)
    → rank < 2 * k + 2
    → (compute_two_phase_partition rank 1 (2 * k + 2) ≡ ok (rank % 2))
      × (compute_two_phase_partition (send_to_rank rank 1 (2 * k + 2)) 1 (2 * k + 2)
          ≡ ok (1 - rank % 2))
unfolding send_to_rank
compute_two_phase_partition-opposite k rank below =
    let size : suc (suc (2 * k)) ≡ 2 * k + 2 = omega arith in
    let next = send_to_rank rank 1 (2 * k + 2) in
    let in_ring : next < suc (suc (2 * k)) = ground arith in
    let flips : next % 2 ≡ 1 - rank % 2 = ground arith in
    (
      subst (λ w. compute_two_phase_partition rank 1 w ≡ ok (rank % 2)) size
          (partition-first rank (2 * k) (omega arith)),
      subst (λ w. compute_two_phase_partition next 1 w ≡ ok (1 - rank % 2)) size
          (partition-first next (2 * k) in_ring ∙ ap ok flips),
    )

run_stage-first :
    (rank m : ℕ) (s : Stage)
    → rank < suc (suc m)
    → rank % 2 ≡ 0
    → s.stage_offset ≡ 1
    → run_stage rank (suc (suc m)) s
      ≡ ok (execute send_list s.sends ++ barrier ∷ (execute recv_list s.recvs ++ barrier ∷ []))
unfolding run_stage two_phases
run_stage-first rank m s below even offset =
    let part = partition-first rank m below ∙ ap ok even in
    rw (run_stage, offset, if◌then◌else◌, part, two_phases) refl

-- In a ring of an odd number of ranks the last rank sends to rank 0 in the first stage, and both are
-- in the same partition: each sends before the barrier and receives behind it, so that rank 0 does
-- not receive what the last rank sends before the last rank has come to the barrier.
pub run_stage-odd :
    (k : ℕ) (last first : Stage)
    → last.stage_offset ≡ 1
    → first.stage_offset ≡ 1
    → (send_to_rank (2 * k + 2) 1 (2 * k + 3) ≡ 0)
      × (run_stage (2 * k + 2) (2 * k + 3) last
          ≡ ok (
              execute send_list last.sends
              ++ barrier ∷ (execute recv_list last.recvs ++ barrier ∷ [])))
      × (run_stage 0 (2 * k + 3) first
          ≡ ok (
              execute send_list first.sends
              ++ barrier ∷ (execute recv_list first.recvs ++ barrier ∷ [])))
unfolding send_to_rank
run_stage-odd k last first e e' =
    let size : suc (suc (2 * k + 1)) ≡ 2 * k + 3 = omega arith in
    (
      ground arith,
      subst
          (λ w.
            run_stage (2 * k + 2) w last
            ≡ ok (
                execute send_list last.sends
                ++ barrier ∷ (execute recv_list last.recvs ++ barrier ∷ [])))
          size (run_stage-first (2 * k + 2) (2 * k + 1) last (omega arith) (omega arith) e),
      subst
          (λ w.
            run_stage 0 w first
            ≡ ok (
                execute send_list first.sends
                ++ barrier ∷ (execute recv_list first.recvs ++ barrier ∷ [])))
          size (run_stage-first 0 (2 * k + 1) first (omega arith) (omega arith) e'),
    )

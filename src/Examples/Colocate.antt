-- ===== src/Examples/Colocate.antt =====
-- Two devices, each with a training rank and an inference rank.
use asystem_awex.Prelude.{
  ℕ, zero, suc, ◌+◌, ◌<◌, ◌≡◌, refl, sym, ◌∙◌, subst, inl, inr, Bool-cases, ==_iff, false, none,
  some, List, [], ◌∷◌, ◌++◌, is_nil, select, Each, arith, ◌==◌, if◌then◌else◌,
}
use asystem_awex.Prelude.Equality.{nat_eq}
use asystem_awex.Prelude.Dict.{Dict, get}
use asystem_awex.Prelude.Result.{ok}
use asystem_awex.Plan.Shards.{CommunicationOperation}
use asystem_awex.Transport.Colocate.{
  send_to_rank, compute_two_phase_partition, Stage, build_stages, run_stage, execute, send_list,
  recv_list, barrier,
}
use asystem_awex.Transport.Colocate.Stages.{entries, to_peer, IsReady}
use asystem_awex.Transport.Colocate.Once.{all_of, build_stages-once}
use asystem_awex.Transport.Colocate.Phases.{compute_two_phase_partition-opposite, run_stage-odd}
use asystem_awex.Examples.Data.{some_op}

abbrev op_between : (send_rank recv_rank : ℕ) → CommunicationOperation
op_between send_rank recv_rank = record some_op { send_rank = send_rank; recv_rank = recv_rank }

-- Inference rank i shares its device with training rank i + 2.
abbrev to_train : Dict ℕ ℕ
to_train = (0, 2) ∷ (1, 3) ∷ []

abbrev to_infer : Dict ℕ ℕ
to_infer = (2, 0) ∷ (3, 1) ∷ []

abbrev pub own_sends : Dict ℕ (List CommunicationOperation)
own_sends = (1, op_between 2 1 ∷ op_between 2 1 ∷ []) ∷ (0, op_between 2 0 ∷ []) ∷ []

abbrev pub own_recvs : Dict ℕ (List CommunicationOperation)
own_recvs = (3, op_between 3 0 ∷ []) ∷ []

chosen :
    (P : List CommunicationOperation → Type 0) (xs ops : List CommunicationOperation)
    → some xs ≡ some ops
    → P xs
    → P ops
chosen P xs ops h p = let e : xs ≡ ops = cc in subst P e p

-- The lists of operations under a rank fit it.
sends-fit :
    (to : ℕ) (ops : List CommunicationOperation)
    → get own_sends to ≡ some ops
    → (is_nil ops ≡ false) × Each (λ op. op.recv_rank ≡ to) ops
sends-fit zero ops h =
    chosen (λ xs. (is_nil xs ≡ false) × Each (λ op. op.recv_rank ≡ 0) xs) _ ops h (refl, (refl, tt))
sends-fit (suc zero) ops h =
    chosen (λ xs. (is_nil xs ≡ false) × Each (λ op. op.recv_rank ≡ 1) xs) _ ops h
      (refl, (refl, (refl, tt)))
sends-fit (suc (suc to)) ops h =
    let nothing : get own_sends (suc (suc to)) ≡ none = ground arith in absurd (cc)

recvs-fit :
    (from : ℕ) (ops : List CommunicationOperation)
    → get own_recvs from ≡ some ops
    → (is_nil ops ≡ false) × Each (λ op. op.send_rank ≡ from) ops
recvs-fit from ops h = elim (Bool-cases (3 == from)) [
  | inl t ↦
      let e = (==_iff 3 from).0 t in
      let here : get own_recvs from ≡ some (op_between 3 0 ∷ []) = rw (t, if◌then◌else◌) refl in
      chosen (λ xs. (is_nil xs ≡ false) × Each (λ op. op.send_rank ≡ from) xs) _ ops (sym here ∙ h)
        (refl, (e, tt))
  | inr t ↦ let nothing : get own_recvs from ≡ none = rw (t, if◌then◌else◌) refl in absurd (cc)
]

train_of : (i : ℕ) → i < 2 → get to_train i ≡ some (i + 2)
train_of zero h = refl
train_of (suc zero) h = refl
train_of (suc (suc i)) h = absurd (omega arith)

infer_of : (i : ℕ) → i < 2 → get to_infer (i + 2) ≡ some i
infer_of zero h = refl
infer_of (suc zero) h = refl
infer_of (suc (suc i)) h = absurd (omega arith)

abbrev two_devices : IsReady to_train to_infer 2 own_sends own_recvs
two_devices = record {
  train = λ i. i + 2;
  to_train = train_of;
  to_infer = infer_of;
  sends = sends-fit;
  recvs = recvs-fit;
}

stages_example :
    (stages : List Stage) × (build_stages to_train to_infer 0 2 own_sends own_recvs 2 0 ≡ ok stages)
    × ((p : ℕ)
        → p < 2
        → (p == 0) ≡ false
        → (select (λ o. o.peer == p) (all_of (λ s. s.sends) stages)
            ≡ to_peer p (entries (get own_sends p)))
          × (select (λ o. o.peer == p) (all_of (λ s. s.recvs) stages)
              ≡ to_peer p (entries (get own_recvs (p + 2)))))
    × (all_of (λ s. s.copies) stages ≡ op_between 2 0 ∷ [])
stages_example =
    build_stages-once to_train to_infer 0 2 own_sends own_recvs two_devices (omega arith)

opposite_example :
    (compute_two_phase_partition 3 1 4 ≡ ok 1)
    × (compute_two_phase_partition (send_to_rank 3 1 4) 1 4 ≡ ok 0)
opposite_example = compute_two_phase_partition-opposite 1 3 (omega arith)

abbrev a_stage : Stage
a_stage = record {
  stage_offset = 1;
  sends = to_peer 0 (op_between 5 0 ∷ []);
  recvs = [];
  copies = [];
}

abbrev next_stage : Stage
next_stage = record {
  stage_offset = 1;
  sends = [];
  recvs = to_peer 2 (op_between 5 0 ∷ []);
  copies = [];
}

-- Three ranks: rank 2 sends before the barrier, and rank 0 receives behind it.
odd_example :
    (send_to_rank 2 1 3 ≡ 0)
    × (run_stage 2 3 a_stage
        ≡ ok (
            execute send_list a_stage.sends
            ++ barrier ∷ (execute recv_list a_stage.recvs ++ barrier ∷ [])))
    × (run_stage 0 3 next_stage
        ≡ ok (
            execute send_list next_stage.sends
            ++ barrier ∷ (execute recv_list next_stage.recvs ++ barrier ∷ [])))
odd_example = run_stage-odd 0 a_stage next_stage refl refl

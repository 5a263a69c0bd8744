-- ===== src/Transport/Colocate.antt =====
-- NcclColocateTransport.update_weights_in_colocate_mode and compute_two_phase_partition of
-- awex/transfer/nccl_comm.py: the operations of each stage, and the batches that one rank executes with
-- the barriers between them. The slices of the tensors, the copies and the waiting are torch's.
pub mod Stages
pub mod Once
pub mod Phases
use asystem_awex.Prelude.{
  ℕ, zero, suc, ◌+◌, ◌-◌, ◌*◌, ◌/◌, ◌%◌, Bool, true, false, not, ◌&&◌, ◌||◌, Option, none, some,
  List, [], ◌∷◌, ◌++◌, map, is_nil, leb, ltb, ◌==◌, if◌then◌else◌,
}
use asystem_awex.Prelude.Equality.{nat_eq}
use asystem_awex.Prelude.Dict.{Dict, get}
use asystem_awex.Prelude.Result.{
  Result, ok, err, value_error, key_error, assertion_error, runtime_error, guard, ◌>>=◌, ◌>>◌,
}
use asystem_awex.Plan.Shards.{CommunicationOperation}

-- transfer_rank + stage and transfer_rank - stage, around the ring
pub send_to_rank : (transfer_rank stage world_size : ℕ) → ℕ
send_to_rank transfer_rank stage world_size =
    if leb world_size (transfer_rank + stage)
    then transfer_rank + stage - world_size
    else transfer_rank + stage

pub recv_from_rank : (transfer_rank stage world_size : ℕ) → ℕ
recv_from_rank transfer_rank stage world_size =
    if ltb transfer_rank stage then transfer_rank + world_size - stage else transfer_rank - stage

-- A P2POp: its peer and the operation.
pub record P2pOp : Type 0 where
  pub peer : ℕ
  pub op : CommunicationOperation

-- for op in send_ops[send_to_rank], for another rank
pub p2p_sends : (to : ℕ) → List CommunicationOperation → Result (List P2pOp)
p2p_sends to [] = ok []
p2p_sends to (op ∷ ops) = do
  guard (to == op.recv_rank) assertion_error
  more ← p2p_sends to ops
  ok (record { peer = op.recv_rank; op = op } ∷ more)

-- The sends of a stage, and what is copied on the device.
pub stage_sends :
    (transfer_rank to : ℕ)
    → Option (List CommunicationOperation)
    → Result (List P2pOp × List CommunicationOperation)
unfolding p2p_sends
stage_sends transfer_rank to none = ok ([], [])
stage_sends transfer_rank to (some ops) =
    if to == transfer_rank then ok ([], ops) else (do sends ← p2p_sends to ops; ok (sends, []))

pub p2p_recvs : (send_rank op_send_rank : ℕ) → List CommunicationOperation → Result (List P2pOp)
p2p_recvs send_rank op_send_rank [] = ok []
p2p_recvs send_rank op_send_rank (op ∷ ops) = do
  guard (send_rank == op.send_rank) assertion_error
  more ← p2p_recvs send_rank op_send_rank ops
  ok (record { peer = op_send_rank; op = op } ∷ more)

-- d[k]
pub item : Dict ℕ ℕ → ℕ → Result ℕ
item d k = elim (get d k) [ none ↦ err key_error | some v ↦ ok v ]

pub stage_recvs :
    (transfer_rank from send_rank op_send_rank : ℕ)
    → Option (List CommunicationOperation)
    → Result (List P2pOp)
unfolding p2p_recvs
stage_recvs transfer_rank from send_rank op_send_rank none = ok []
stage_recvs transfer_rank from send_rank op_send_rank (some ops) =
    if from == transfer_rank then ok [] else p2p_recvs send_rank op_send_rank ops

-- not (had_entries and rank != transfer_rank and not ops)
pub built : (same_rank : Bool) → Option (List CommunicationOperation) → List P2pOp → Bool
built same_rank none ops = true
built same_rank (some entries) ops = same_rank || not (is_nil ops)

-- What the stages collect.
pub record Stage : Type 0 where
  pub stage_offset : ℕ
  pub sends : List P2pOp
  pub recvs : List P2pOp
  pub copies : List CommunicationOperation

module _ (infer_to_train train_to_infer : Dict ℕ ℕ) (transfer_rank world_size : ℕ)
    (send_ops recv_ops : Dict ℕ (List CommunicationOperation)) where
  pub build_stage : (stage : ℕ) → Result Stage
  unfolding send_to_rank recv_from_rank stage_sends stage_recvs item built
  build_stage stage = do
    let to = send_to_rank transfer_rank stage world_size
    let from = recv_from_rank transfer_rank stage world_size
    sent ← stage_sends transfer_rank to (get send_ops to)
    send_rank ← item infer_to_train from
    op_send_rank ← item train_to_infer send_rank
    recvs ← stage_recvs transfer_rank from send_rank op_send_rank (get recv_ops send_rank)
    guard (built (to == transfer_rank) (get send_ops to) sent.0) runtime_error
    guard (built (from == transfer_rank) (get recv_ops send_rank) recvs) runtime_error
    ok (record { stage_offset = stage; sends = sent.0; recvs = recvs; copies = sent.1 })

  -- while stage < world_size, with the number of stages that are left
  pub build_stages : (left stage : ℕ) → Result (List Stage)
  unfolding build_stage
  build_stages zero stage = ok []
  build_stages (suc left) stage = do
    first ← build_stage stage
    rest ← build_stages left (stage + 1)
    ok (first ∷ rest)

-- math.gcd, with the second number and one more as fuel
pub gcd : (fuel a b : ℕ) → ℕ
gcd zero a b = a
gcd (suc fuel) a b = elim (b == 0) [ true ↦ a | false ↦ gcd fuel b (a % b) ]

-- pow(base, -1, modulus): the least inverse, from x on
pub inverse_from : (left x base modulus : ℕ) → Result ℕ
inverse_from zero x base modulus = err value_error
inverse_from (suc left) x base modulus = elim (base * x % modulus == 1 % modulus) [
  | true ↦ ok x
  | false ↦ inverse_from left (x + 1) base modulus
]

pub compute_two_phase_partition : (rank stage_idx world_size : ℕ) → Result ℕ
unfolding gcd inverse_from
compute_two_phase_partition rank stage_idx world_size = if stage_idx == 0 then ok 0 else (do
  let gcd_val = gcd (stage_idx + 1) world_size stage_idx
  let reduced_world = world_size / gcd_val
  let reduced_stage = stage_idx / gcd_val
  stage_inv ← inverse_from reduced_world 0 reduced_stage reduced_world
  let cycle_base = rank % gcd_val
  let cycle_index = (rank - cycle_base) / gcd_val
  let cycle_pos = cycle_index * stage_inv % reduced_world
  ok (cycle_pos % 2))

-- What a rank does in the second half of the method.
pub data Action : Type 0 where
  send_list recv_list : (ops : List P2pOp) → Action
  barrier : Action

-- `if ops: execute_p2p_op_list(ops, …)`
pub execute : (List P2pOp → Action) → List P2pOp → List Action
execute direction [] = []
execute direction (op ∷ ops) = direction (op ∷ ops) ∷ []

-- The two phases of a stage for a partition.
pub two_phases : (partition : ℕ) → Stage → List Action
unfolding execute
two_phases partition s =
    if partition == 0
    then execute send_list s.sends ++ barrier ∷ (execute recv_list s.recvs ++ barrier ∷ [])
    else execute recv_list s.recvs ++ barrier ∷ (execute send_list s.sends ++ barrier ∷ [])

pub run_stage : (transfer_rank world_size : ℕ) → Stage → Result (List Action)
unfolding compute_two_phase_partition two_phases
run_stage transfer_rank world_size s =
    if s.stage_offset == 0
    then guard (is_nil s.sends && is_nil s.recvs) assertion_error >> ok []
    else (do
      partition ← compute_two_phase_partition transfer_rank s.stage_offset world_size
      ok (two_phases partition s))

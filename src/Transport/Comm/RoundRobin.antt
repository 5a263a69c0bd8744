-- ===== src/Transport/Comm/RoundRobin.antt =====
-- nccl_build_send_ops and nccl_build_recv_ops, awex/transfer/nccl_comm.py: both go round the ranks of a
-- plan and take the next operation of each. The slicing of a tensor and is_contiguous are torch's,
-- and parameters. The fuel of the while loop is the number of operations and two more: a round takes
-- an operation of each rank that has any left. The memory report is left out.
pub mod Keeps
pub mod Progress
pub mod Visits
pub mod Orders
use asystem_awex.Prelude.{
  ℕ, zero, suc, ◌+◌, ◌≡◌, Bool, true, false, not, ◌&&◌, Option, none, some, List, [], ◌∷◌, ◌++◌,
  any, select, sum_by, length, is_nil, get_elem?, ◌==◌, if◌then◌else◌,
}
use asystem_awex.Prelude.Equality.{Text, list_eq, nat_eq}
use asystem_awex.Prelude.Dict.{Dict, get, keys, values, bucket}
use asystem_awex.Prelude.Sort.{sort_on, nat_ord}
use asystem_awex.Prelude.Result.{Result, ok, err, key_error, out_of_fuel, ◌>>=◌}
use asystem_awex.Plan.Shards.{CommunicationOperation}
use asystem_awex.Transport.Comm.Interleave.{set_progress}

-- The progress of every rank, with what the loop has built.
pub record Going {ℓ} (S : Type ℓ) : Type ℓ where
  pub progress : ℕ → ℕ
  pub built : S

module _ {ℓ} {S : Type ℓ} (visit : ℕ → CommunicationOperation → S → Result S)
    (operations : Dict ℕ (List CommunicationOperation)) where
  -- for rank in sorted(unfinished_ranks), with finished_ranks
  pub one_round : List ℕ → Going S → Result (Going S × List ℕ)
  one_round [] g = ok (g, [])
  one_round (rank ∷ ranks) g = elim (get_elem? (bucket operations rank) (g.progress rank)) [
    | none ↦ one_round ranks g >>= λ out. ok (out.0, rank ∷ out.1)
    | some op ↦ visit rank op g.built >>= λ now.
        one_round ranks
          (record { progress = set_progress g.progress rank (g.progress rank + 1); built = now })
  ]

  -- while len(unfinished_ranks) > 0
  pub rounds : (fuel : ℕ) → List ℕ → Going S → Result S
  unfolding one_round
  rounds fuel [] g = ok g.built
  rounds zero (rank ∷ ranks) g = err out_of_fuel
  rounds (suc fuel) (rank ∷ ranks) g = one_round (rank ∷ ranks) g >>= λ out.
      rounds fuel (select (λ r. not (any (λ q. q == r) out.1)) (rank ∷ ranks)) out.0

  pub go_round : S → Result S
  unfolding rounds
  go_round start =
      rounds (sum_by length (values operations) + 2) (sort_on (λ r. r) (keys operations))
        (record { progress = λ r. 0; built = start })

-- A dist.P2POp with its tensor and its peer.
pub record TensorOp (T : Type 0) : Type 0 where
  pub tensor : T
  pub peer : ℕ

pub record Sends (T : Type 0) : Type 0 where
  pub p2p_op_list : List (TensorOp T)
  pub copy_op_list : List T
  pub send_traj_list : List (Text × ℕ)

pub record Recvs (T : Type 0) : Type 0 where
  pub p2p_op_list : List (TensorOp T)
  pub non_contiguous_tensor_pairs : List (T × T)
  pub recv_traj_list : List (Text × ℕ)

module _ {T : Type 0} (parameters : Dict Text T)
    (slice_tensor : T → CommunicationOperation → (is_train : Bool) → Result T)
    (use_batch_send_recv : Bool) where
  -- parameters[name]
  pub parameter : Text → Result T
  parameter name = elim (get parameters name) [ none ↦ err key_error | some t ↦ ok t ]

  -- What a sliced tensor is added to.
  pub add_send : (copy_rank recv_rank : ℕ) (name : Text) (tensor_sliced : T) → Sends T → Sends T
  add_send copy_rank recv_rank name tensor_sliced s =
      if recv_rank == copy_rank
      then record s { copy_op_list = s.copy_op_list ++ tensor_sliced ∷ [] }
      else record {
        p2p_op_list = s.p2p_op_list ++ record { tensor = tensor_sliced; peer = recv_rank } ∷ [];
        copy_op_list = s.copy_op_list;
        send_traj_list =
            if use_batch_send_recv
            then s.send_traj_list
            else s.send_traj_list ++ (name, recv_rank) ∷ [];
      }

  pub send_visit : (copy_rank rank : ℕ) → CommunicationOperation → Sends T → Result (Sends T)
  unfolding parameter add_send
  send_visit copy_rank recv_rank op s = do
    send_tensor ← parameter op.send_shard_meta.name
    tensor_sliced ← slice_tensor send_tensor op true
    ok (add_send copy_rank recv_rank op.send_shard_meta.name tensor_sliced s)

  pub nccl_build_send_ops :
      Dict ℕ (List CommunicationOperation) → (copy_rank : ℕ) → Result (Sends T)
  unfolding send_visit go_round
  nccl_build_send_ops operations copy_rank =
      go_round (send_visit copy_rank) operations
        (record { p2p_op_list = []; copy_op_list = []; send_traj_list = [] })

  -- The tensor that is received into: a contiguous copy where the slice is none.
  pub received : (is_contiguous : T → Bool) (contiguous : T → T) (tensor_sliced : T) → T
  received is_contiguous contiguous tensor_sliced =
      if not (is_contiguous tensor_sliced) && use_batch_send_recv
      then contiguous tensor_sliced
      else tensor_sliced

  -- What a sliced tensor is added to.
  pub add_recv :
      (is_contiguous : T → Bool) (contiguous : T → T) (send_rank : ℕ) (name : Text)
      (tensor_sliced : T)
      → Recvs T
      → Recvs T
  unfolding received
  add_recv is_contiguous contiguous send_rank name tensor_sliced s =
      let used = received is_contiguous contiguous tensor_sliced in
      record {
        p2p_op_list = s.p2p_op_list ++ record { tensor = used; peer = send_rank } ∷ [];
        non_contiguous_tensor_pairs =
            if not (is_contiguous tensor_sliced) && use_batch_send_recv
            then s.non_contiguous_tensor_pairs ++ (tensor_sliced, used) ∷ []
            else s.non_contiguous_tensor_pairs;
        recv_traj_list =
            if use_batch_send_recv
            then s.recv_traj_list
            else s.recv_traj_list ++ (name, send_rank) ∷ [];
      }

  pub recv_visit :
      (is_contiguous : T → Bool) (contiguous : T → T) (rank : ℕ)
      → CommunicationOperation
      → Recvs T
      → Result (Recvs T)
  unfolding parameter add_recv
  recv_visit is_contiguous contiguous send_rank op s = do
    recv_tensor ← parameter op.recv_shard_meta.name
    tensor_sliced ← slice_tensor recv_tensor op false
    ok (add_recv is_contiguous contiguous send_rank op.recv_shard_meta.name tensor_sliced s)

  pub nccl_build_recv_ops :
      (is_contiguous : T → Bool) (contiguous : T → T)
      → Dict ℕ (List CommunicationOperation)
      → Result (Recvs T)
  unfolding recv_visit go_round
  nccl_build_recv_ops is_contiguous contiguous operations =
      go_round (recv_visit is_contiguous contiguous) operations
        (record { p2p_op_list = []; non_contiguous_tensor_pairs = []; recv_traj_list = [] })

-- ===== src/Transport/Comm/RoundRobin/Orders.antt =====
-- The operations that nccl_build_send_ops and nccl_build_recv_ops build for each rank.
use asystem_awex.Prelude.{
  ℕ, ◌+◌, ◌≤◌, ◌≡◌, refl, sym, ap, subst, ◌∙◌, Bool, true, false, some, List, [], ◌∷◌, ◌++◌, map,
  any, select, sum_by, length, get_elem?, arith, inl, inr, Bool-cases, ◌==◌, ==_refl, if◌then◌else◌,
}
use asystem_awex.Prelude.Equality.{Text, list_eq, nat_eq}
use asystem_awex.Prelude.Dict.{Dict, get, keys, values, bucket}
use asystem_awex.Prelude.Sort.{sort_on, nat_ord}
use asystem_awex.Prelude.Result.{Result, ok, >>=-eq-ok, ok-injective}
use asystem_awex.Plan.Shards.{CommunicationOperation}
use asystem_awex.Transport.Comm.Interleave.Kept.{any-sorted, bucket-absent}
use asystem_awex.Transport.Comm.RoundRobin.{
  go_round, received, add_recv, TensorOp, Sends, Recvs, parameter, add_send, send_visit,
  nccl_build_send_ops, recv_visit, nccl_build_recv_ops,
}
use asystem_awex.Transport.Comm.RoundRobin.Keeps.{go_round-keeps}
use asystem_awex.Transport.Comm.RoundRobin.Visits.{rounds-Ends}

bucket-total :
    (d : Dict ℕ (List CommunicationOperation)) (p : ℕ)
    → length (bucket d p) ≤ sum_by length (values d)
bucket-total [] p = omega arith
bucket-total ((j, xs) ∷ d) p = ground (arith, bucket-total d p)

-- From a start where nothing is observed, the loop ends with all the observations.
go_round-all {ℓ κ} :
    {S : Type ℓ} {B : Type κ} (visit : ℕ → CommunicationOperation → S → Result S)
    (operations : Dict ℕ (List CommunicationOperation)) (obs : ℕ → S → List B)
    (seen : ℕ → CommunicationOperation → B)
    (visited : (r i : ℕ) (op : CommunicationOperation) (s : S)
      → get_elem? (bucket operations r) i ≡ some op
      → (now : S) × (visit r op s ≡ ok now)
        × ((p : ℕ) → obs p now ≡ (if r == p then obs p s ++ seen r op ∷ [] else obs p s)))
    (start : S)
    → ((p : ℕ) → obs p start ≡ [])
    → (end : S) × (go_round visit operations start ≡ ok end)
      × ((p : ℕ) → obs p end ≡ map (seen p) (bucket operations p))
unfolding go_round
go_round-all visit operations obs seen visited start empty =
    let total = sum_by length (values operations) in
    rounds-Ends visit operations obs seen visited (total + 1) (total + 2)
      (sort_on (λ r. r) (keys operations)) (record { progress = λ r. 0; built = start })
      (omega arith) empty
      (λ p. elim (Bool-cases (any (λ q. q == p) (keys operations))) [
        | inl t ↦
            let few = bucket-total operations p in
            inr (any-sorted p (keys operations) ∙ t, omega (arith, few))
        | inr t ↦
            let none_of = ap length (bucket-absent operations p t) in inl (omega (arith, none_of))
      ])

-- The tensors of the operations with a peer.
abbrev pub tensors_for : {T : Type 0} → ℕ → List (TensorOp T) → List T
tensors_for p ops = map (λ o. o.tensor) (select (λ o. o.peer == p) ops)

tensors_for-snoc :
    {T : Type 0} (p : ℕ) (ops : List (TensorOp T)) (t : T) (peer : ℕ)
    → tensors_for p (ops ++ record { tensor = t; peer = peer } ∷ [])
      ≡ (if peer == p then tensors_for p ops ++ t ∷ [] else tensors_for p ops)
tensors_for-snoc p [] t peer = ground arith
tensors_for-snoc p (o ∷ ops) t peer = ground (arith, tensors_for-snoc p ops t peer)

module _ {T : Type 0} (parameters : Dict Text T)
    (slice_tensor : T → CommunicationOperation → (is_train : Bool) → Result T)
    (use_batch_send_recv : Bool) (operations : Dict ℕ (List CommunicationOperation))
    (view : CommunicationOperation → T) where
  -- The parameter of each operation is there, and its slice is this view.
  abbrev pub Sliced : (name : CommunicationOperation → Text) (is_train : Bool) → Type 0
  Sliced name is_train =
      (r i : ℕ) (op : CommunicationOperation)
      → get_elem? (bucket operations r) i ≡ some op
      → (t : T) × (get parameters (name op) ≡ some t) × (slice_tensor t op is_train ≡ ok (view op))

  abbrev sent : (copy_rank p : ℕ) → Sends T → List T
  sent copy_rank p s = if p == copy_rank then s.copy_op_list else tensors_for p s.p2p_op_list

  add_send-sent :
      (copy_rank r p : ℕ) (name : Text) (t : T) (s : Sends T)
      → sent copy_rank p (add_send parameters slice_tensor use_batch_send_recv copy_rank r name t s)
        ≡ (if r == p then sent copy_rank p s ++ t ∷ [] else sent copy_rank p s)
  unfolding add_send
  add_send-sent copy_rank r p name t s = ground (arith, tensors_for-snoc p s.p2p_op_list t r)

  add_send-copies :
      (copy_rank r : ℕ) (name : Text) (t : T) (s : Sends T)
      → tensors_for copy_rank s.p2p_op_list ≡ []
      → tensors_for copy_rank
          (add_send parameters slice_tensor use_batch_send_recv copy_rank r name t s).p2p_op_list
        ≡ []
  unfolding add_send
  add_send-copies copy_rank r name t s h =
      ground (arith, tensors_for-snoc copy_rank s.p2p_op_list t r)

  -- No visit makes a P2P operation to the rank that is copied to.
  send_visit-copies :
      (copy_rank r : ℕ) (op : CommunicationOperation) (s now : Sends T)
      → send_visit parameters slice_tensor use_batch_send_recv copy_rank r op s ≡ ok now
      → tensors_for copy_rank s.p2p_op_list ≡ []
      → tensors_for copy_rank now.p2p_op_list ≡ []
  unfolding send_visit
  send_visit-copies copy_rank r op s now h none_yet =
      let (tensor, there, sliced) =
        >>=-eq-ok (parameter parameters slice_tensor use_batch_send_recv op.send_shard_meta.name) _
          h in
      let (cut, found, added) = >>=-eq-ok (slice_tensor tensor op true) _ sliced in
      subst (λ z. tensors_for copy_rank z.p2p_op_list ≡ []) (ok-injective added)
        (add_send-copies copy_rank r op.send_shard_meta.name cut s none_yet)

  -- nccl_build_send_ops returns, and what it builds for each receiving rank are the slices of the
  -- operations under that rank, in their order, and for the rank to copy to they are in the copy
  -- list, and in no P2P operation.
  pub nccl_build_send_ops-order :
      (copy_rank : ℕ)
      → Sliced (λ op. op.send_shard_meta.name) true
      → (built : Sends T) × (nccl_build_send_ops parameters slice_tensor use_batch_send_recv
            operations copy_rank
          ≡ ok built)
        × (built.copy_op_list ≡ map view (bucket operations copy_rank))
        × (tensors_for copy_rank built.p2p_op_list ≡ [])
        × ((p : ℕ)
            → (p == copy_rank) ≡ false
            → tensors_for p built.p2p_op_list ≡ map view (bucket operations p))
  unfolding nccl_build_send_ops send_visit parameter
  nccl_build_send_ops-order copy_rank sliced =
      let (built, e, all_seen) =
        go_round-all (send_visit parameters slice_tensor use_batch_send_recv copy_rank) operations
          (sent copy_rank) (λ p. view)
          (λ r i op s found.
            let (t, there, cut) = sliced r i op found in
            (
              add_send parameters slice_tensor use_batch_send_recv copy_rank r
                  op.send_shard_meta.name (view op) s,
              rw (send_visit, parameter, there, cut) refl,
              λ p. add_send-sent copy_rank r p op.send_shard_meta.name (view op) s,
            ))
          (record { p2p_op_list = []; copy_op_list = []; send_traj_list = [] })
          (λ p. ground arith) in
      (
        built,
        e,
        sym (
              ap (λ b. if b then built.copy_op_list else tensors_for copy_rank built.p2p_op_list)
                (==_refl copy_rank))
            ∙ all_seen copy_rank,
        go_round-keeps (send_visit parameters slice_tensor use_batch_send_recv copy_rank) operations
            (λ s. tensors_for copy_rank s.p2p_op_list ≡ []) (send_visit-copies copy_rank)
            (record { p2p_op_list = []; copy_op_list = []; send_traj_list = [] }) e refl,
        λ p other.
            sym (ap (λ b. if b then built.copy_op_list else tensors_for p built.p2p_op_list) other)
            ∙ all_seen p,
      )

  -- nccl_build_recv_ops returns, and what it builds for each sending rank are the slices of the
  -- operations under that rank, or their contiguous copies, in their order.
  pub nccl_build_recv_ops-order :
      (is_contiguous : T → Bool) (contiguous : T → T)
      → Sliced (λ op. op.recv_shard_meta.name) false
      → (built : Recvs T) × (nccl_build_recv_ops parameters slice_tensor use_batch_send_recv
            is_contiguous contiguous operations
          ≡ ok built)
        × ((p : ℕ)
            → tensors_for p built.p2p_op_list
              ≡ map
                  (λ op.
                    received parameters slice_tensor use_batch_send_recv is_contiguous contiguous
                      (view op))
                  (bucket operations p))
  unfolding nccl_build_recv_ops recv_visit parameter add_recv
  nccl_build_recv_ops-order is_contiguous contiguous sliced =
      go_round-all (recv_visit parameters slice_tensor use_batch_send_recv is_contiguous contiguous)
        operations (λ p s. tensors_for p s.p2p_op_list)
        (λ p op.
          received parameters slice_tensor use_batch_send_recv is_contiguous contiguous (view op))
        (λ r i op s found.
          let (t, there, cut) = sliced r i op found in
          (
            add_recv parameters slice_tensor use_batch_send_recv is_contiguous contiguous r
                op.recv_shard_meta.name (view op) s,
            rw (recv_visit, parameter, there, cut) refl,
            λ p.
                tensors_for-snoc p s.p2p_op_list
                  (received parameters slice_tensor use_batch_send_recv is_contiguous contiguous
                    (view op))
                  r,
          ))
        (record { p2p_op_list = []; non_contiguous_tensor_pairs = []; recv_traj_list = [] })
        (λ p. refl)

-- ===== src/Examples/RoundRobin.antt =====
-- The operations of the two devices, with numbers as tensors.
use asystem_awex.Prelude.{
  ℕ, zero, suc, ◌≡◌, refl, sym, subst, Bool, true, false, some, List, [], ◌∷◌, map, get_elem?, Each,
  inl, inr, Bool-cases, ◌==◌, if◌then◌else◌,
}
use asystem_awex.Prelude.Equality.{Text, list_eq, nat_eq}
use asystem_awex.Prelude.Dict.{Dict, get, bucket}
use asystem_awex.Prelude.Result.{Result, ok}
use asystem_awex.Plan.Shards.{CommunicationOperation}
use asystem_awex.Transport.Comm.RoundRobin.{
  Sends, Recvs, received, nccl_build_send_ops, nccl_build_recv_ops,
}
use asystem_awex.Transport.Comm.RoundRobin.Orders.{
  tensors_for, nccl_build_send_ops-order, nccl_build_recv_ops-order,
}
use asystem_awex.Examples.Data.{weight_name}
use asystem_awex.Examples.Colocate.{own_sends, own_recvs}

bucket-Each :
    (P : CommunicationOperation → Type 0) (d : Dict ℕ (List CommunicationOperation)) (r : ℕ)
    → Each (λ e. Each P e.1) d
    → Each P (bucket d r)
bucket-Each P [] r h = tt
bucket-Each P ((j, ops) ∷ d) r h = elim (Bool-cases (j == r)) [
  | inl t ↦ rw (t, if◌then◌else◌) h.0
  | inr t ↦ rw (t, if◌then◌else◌) (bucket-Each P d r h.1)
]

Each-get_elem? :
    (P : CommunicationOperation → Type 0) (ops : List CommunicationOperation) (i : ℕ)
    (op : CommunicationOperation)
    → get_elem? ops i ≡ some op
    → Each P ops
    → P op
Each-get_elem? P [] i op h k = absurd (cc)
Each-get_elem? P (x ∷ ops) zero op h k = let e : x ≡ op = cc in subst P e k.0
Each-get_elem? P (x ∷ ops) (suc i) op h k = Each-get_elem? P ops i op h k.1

abbrev parameters : Dict Text ℕ
parameters = (weight_name, 7) ∷ []

abbrev whole : ℕ → CommunicationOperation → Bool → Result ℕ
whole t op is_train = ok t

abbrev seven : CommunicationOperation → ℕ
seven op = 7

there :
    (name : CommunicationOperation → Text) (d : Dict ℕ (List CommunicationOperation))
    (is_train : Bool)
    → Each (λ e. Each (λ op. name op ≡ weight_name) e.1) d
    → (r i : ℕ) (op : CommunicationOperation) → get_elem? (bucket d r) i ≡ some op
    → (t : ℕ) × (get parameters (name op) ≡ some t) × (whole t op is_train ≡ ok (seven op))
there name d is_train h r i op found =
    let e =
      Each-get_elem? (λ o. name o ≡ weight_name) (bucket d r) i op found
        (bucket-Each (λ o. name o ≡ weight_name) d r h) in
    (7, subst (λ n. get parameters n ≡ some 7) (sym e) refl, refl)

send_example :
    (built : Sends ℕ) × (nccl_build_send_ops parameters whole true own_sends 0 ≡ ok built)
    × (built.copy_op_list ≡ 7 ∷ [])
    × (tensors_for 0 built.p2p_op_list ≡ [])
    × ((p : ℕ)
        → (p == 0) ≡ false
        → tensors_for p built.p2p_op_list ≡ map seven (bucket own_sends p))
send_example =
    nccl_build_send_ops-order parameters whole true own_sends seven 0
      (there (λ op. op.send_shard_meta.name) own_sends true ((refl, (refl, tt)), ((refl, tt), tt)))

-- No slice is contiguous.
recv_example :
    (built : Recvs ℕ) × (nccl_build_recv_ops parameters whole true (λ t. false) (λ t. t) own_recvs
      ≡ ok built)
    × ((p : ℕ)
        → tensors_for p built.p2p_op_list
          ≡ map
              (λ op. received parameters whole true (λ t. false) (λ t. t) (seven op))
              (bucket own_recvs p))
recv_example =
    nccl_build_recv_ops-order parameters whole true own_recvs seven (λ t. false) (λ t. t)
      (there (λ op. op.recv_shard_meta.name) own_recvs false ((refl, tt), tt))

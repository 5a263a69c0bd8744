-- ===== src/Transport/Colocate/Stages.antt =====
-- The stages send and receive everything, each operation in one stage.
use asystem_awex.Prelude.{
  ℕ, zero, suc, ◌+◌, ◌-◌, ◌<◌, ◌≤◌, ◌≡◌, refl, sym, ap, ap₂, ◌∙◌, Bool, true, false, Option, none,
  some, List, [], ◌∷◌, ◌++◌, append-nil, map, is_nil, select, select-append, Each, arith, inl, inr,
  Bool-cases, ◌==◌, ==_iff, ==_refl, leb, if◌then◌else◌,
}
use asystem_awex.Prelude.Equality.{nat_eq}
use asystem_awex.Prelude.Dict.{Dict, get}
use asystem_awex.Prelude.Result.{ok, guard}
use asystem_awex.Plan.Shards.{CommunicationOperation}
use asystem_awex.Transport.Colocate.{send_to_rank, recv_from_rank, P2pOp, p2p_sends, p2p_recvs}

-- d.get(k, [])
abbrev pub entries : Option (List CommunicationOperation) → List CommunicationOperation
entries none = []
entries (some ops) = ops

abbrev pub to_peer : ℕ → List CommunicationOperation → List P2pOp
to_peer peer ops = map (λ op. record { peer = peer; op = op }) ops

-- What the stages from k on, n of them, have together.
abbrev pub over {ℓ} : {A : Type ℓ} → (ℕ → List A) → (k n : ℕ) → List A
over f k zero = []
over f k (suc n) = f k ++ over f (k + 1) n

module _ {ℓ} {A : Type ℓ} (f : ℕ → List A) (q : A → Bool) (stage_of w : ℕ) (xs : List A)
    (hits : (s : ℕ) → s < w → select q (f s) ≡ (if s == stage_of then xs else [])) where
  over-miss : (n k : ℕ) → k + n ≤ w → stage_of < k → select q (over f k n) ≡ []
  over-miss zero k h later = refl
  over-miss (suc n) k h later =
      let other : (k == stage_of) ≡ false = ground arith in
      select-append q (f k) (over f (k + 1) n)
      ∙ ap₂ ◌++◌ (hits k (omega arith) ∙ ap (λ b. if b then xs else []) other)
          (over-miss n (k + 1) (omega arith) (omega arith))

  pub over-hit :
      (n k : ℕ) → k + n ≤ w → k ≤ stage_of → stage_of < k + n → select q (over f k n) ≡ xs
  over-hit zero k h low high = absurd (omega arith)
  over-hit (suc n) k h low high =
      let split = select-append q (f k) (over f (k + 1) n) in
      elim (Bool-cases (k == stage_of)) [
        | inl t ↦
            let e = (==_iff k stage_of).0 t in
            split
            ∙ ap₂ ◌++◌ (hits k (omega arith) ∙ ap (λ b. if b then xs else []) t)
                (over-miss n (k + 1) (omega arith) (omega arith))
            ∙ append-nil xs
        | inr t ↦
            let further : k + 1 ≤ stage_of = ground arith in
            split
            ∙ ap₂ ◌++◌ (hits k (omega arith) ∙ ap (λ b. if b then xs else []) t)
                (over-hit n (k + 1) (omega arith) further (omega arith))
      ]

pub p2p_sends-ok :
    (to : ℕ) (ops : List CommunicationOperation)
    → Each (λ op. op.recv_rank ≡ to) ops
    → p2p_sends to ops ≡ ok (to_peer to ops)
unfolding p2p_sends
p2p_sends-ok to [] h = refl
p2p_sends-ok to (op ∷ ops) h =
    let same : (to == op.recv_rank) ≡ true = (==_iff to op.recv_rank).1 (sym h.0) in
    rw (p2p_sends, same, guard, p2p_sends-ok to ops h.1)
      (ap (λ r. ok (record { peer = r; op = op } ∷ to_peer to ops)) h.0)

pub p2p_recvs-ok :
    (send_rank peer : ℕ) (ops : List CommunicationOperation)
    → Each (λ op. op.send_rank ≡ send_rank) ops
    → p2p_recvs send_rank peer ops ≡ ok (to_peer peer ops)
unfolding p2p_recvs
p2p_recvs-ok send_rank peer [] h = refl
p2p_recvs-ok send_rank peer (op ∷ ops) h =
    let same : (send_rank == op.send_rank) ≡ true = (==_iff send_rank op.send_rank).1 (sym h.0) in
    rw (p2p_recvs, same, guard, p2p_recvs-ok send_rank peer ops h.1) refl

pub select-to_peer_same :
    (p : ℕ) (ops : List CommunicationOperation)
    → select (λ o. o.peer == p) (to_peer p ops) ≡ to_peer p ops
select-to_peer_same p [] = refl
select-to_peer_same p (op ∷ ops) =
    let self = ==_refl p in
    rw (self, if◌then◌else◌) (ap (◌∷◌ (record { peer = p; op = op })) (select-to_peer_same p ops))

pub select-to_peer_other :
    (p peer : ℕ) (ops : List CommunicationOperation)
    → (peer == p) ≡ false
    → select (λ o. o.peer == p) (to_peer peer ops) ≡ []
select-to_peer_other p peer [] h = refl
select-to_peer_other p peer (op ∷ ops) h = rw (h, if◌then◌else◌) (select-to_peer_other p peer ops h)

-- The stage in which a rank sends to another, and the one in which it receives from it.
abbrev pub stage_to : (transfer_rank peer world_size : ℕ) → ℕ
stage_to transfer_rank peer world_size =
    if leb transfer_rank peer then peer - transfer_rank else peer + world_size - transfer_rank

pub send_to_rank_iff :
    (r p w s : ℕ) → r < w → p < w → s < w → (send_to_rank r s w == p) ≡ (s == stage_to r p w)
unfolding send_to_rank
send_to_rank_iff r p w s hr hp hs = ground arith

pub recv_from_rank_iff :
    (r p w s : ℕ) → r < w → p < w → s < w → (recv_from_rank r s w == p) ≡ (s == stage_to p r w)
unfolding recv_from_rank
recv_from_rank_iff r p w s hr hp hs = ground arith

pub recv_from_rank-lt : (r w s : ℕ) → r < w → s < w → recv_from_rank r s w < w
unfolding recv_from_rank
recv_from_rank-lt r w s hr hs = ground arith

pub stage_to-lt : (r p w : ℕ) → r < w → p < w → stage_to r p w < w
stage_to-lt r p w hr hp = ground arith

-- What the two plans of a rank and the device mappings give: a list of operations under a rank is
-- not empty and holds operations with that rank, and the mappings are inverse on the ring.
pub record IsReady (infer_to_train train_to_infer : Dict ℕ ℕ) (world_size : ℕ)
    (send_ops recv_ops : Dict ℕ (List CommunicationOperation)) : Type 0 where
  pub train : ℕ → ℕ
  pub to_train : (i : ℕ) → i < world_size → get infer_to_train i ≡ some (train i)
  pub to_infer : (i : ℕ) → i < world_size → get train_to_infer (train i) ≡ some i
  pub sends :
      (to : ℕ) (ops : List CommunicationOperation)
      → get send_ops to ≡ some ops
      → (is_nil ops ≡ false) × Each (λ op. op.recv_rank ≡ to) ops
  pub recvs :
      (from : ℕ) (ops : List CommunicationOperation)
      → get recv_ops from ≡ some ops
      → (is_nil ops ≡ false) × Each (λ op. op.send_rank ≡ from) ops

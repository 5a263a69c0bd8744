-- ===== src/Transport/Colocate/Once.antt =====
-- The stages of a rank, from plans that fit it.
use asystem_awex.Prelude.{
  ℕ, zero, suc, ◌+◌, ◌<◌, ◌≤◌, ◌≡◌, refl, sym, ap, ◌∙◌, Bool, true, false, Option, none, some, List,
  [], ◌∷◌, ◌++◌, is_nil, select, Each, arith, inl, inr, Bool-cases, ◌==◌, ==_iff, if◌then◌else◌,
}
use asystem_awex.Prelude.Equality.{nat_eq}
use asystem_awex.Prelude.Dict.{Dict, get}
use asystem_awex.Prelude.Result.{ok}
use asystem_awex.Plan.Shards.{CommunicationOperation}
use asystem_awex.Transport.Colocate.{
  send_to_rank, recv_from_rank, P2pOp, stage_sends, item, stage_recvs, built, Stage, build_stage,
  build_stages,
}
use asystem_awex.Transport.Colocate.Stages.{
  entries, to_peer, over, over-hit, p2p_sends-ok, p2p_recvs-ok, select-to_peer_same,
  select-to_peer_other, stage_to, stage_to-lt, send_to_rank_iff, recv_from_rank_iff,
  recv_from_rank-lt, IsReady,
}

-- Either nothing, for the rank itself, or a list.
abbrev unless : {A : Type 0} → Bool → List A → List A
unless own xs = if own then [] else xs

built-fine :
    (own : Bool) (peer : ℕ) (found : Option (List CommunicationOperation))
    → ((ops : List CommunicationOperation) → found ≡ some ops → is_nil ops ≡ false)
    → built own found (unless own (to_peer peer (entries found))) ≡ true
unfolding built
built-fine own peer none h = refl
built-fine true peer (some ops) h = refl
built-fine false peer (some []) h = absurd (cc (h [] refl))
built-fine false peer (some (op ∷ ops)) h = refl

stage_sends-ok :
    (r to : ℕ) (found : Option (List CommunicationOperation))
    → ((ops : List CommunicationOperation) → found ≡ some ops → Each (λ op. op.recv_rank ≡ to) ops)
    → stage_sends r to found
      ≡ ok (unless (to == r) (to_peer to (entries found)), if to == r then entries found else [])
unfolding stage_sends
stage_sends-ok r to none h = ground arith
stage_sends-ok r to (some ops) h = elim (Bool-cases (to == r)) [
  | inl t ↦ rw (stage_sends, t, if◌then◌else◌) refl
  | inr t ↦ rw (stage_sends, t, if◌then◌else◌, p2p_sends-ok to ops (h ops refl)) refl
]

stage_recvs-ok :
    (r from send_rank peer : ℕ) (found : Option (List CommunicationOperation))
    → ((ops : List CommunicationOperation)
        → found ≡ some ops
        → Each (λ op. op.send_rank ≡ send_rank) ops)
    → stage_recvs r from send_rank peer found
      ≡ ok (unless (from == r) (to_peer peer (entries found)))
unfolding stage_recvs
stage_recvs-ok r from send_rank peer none h = ground arith
stage_recvs-ok r from send_rank peer (some ops) h = elim (Bool-cases (from == r)) [
  | inl t ↦ rw (stage_recvs, t, if◌then◌else◌) refl
  | inr t ↦ rw (stage_recvs, t, if◌then◌else◌) (p2p_recvs-ok send_rank peer ops (h ops refl))
]

-- All that the stages have.
abbrev pub all_of {ℓ} : {A : Type ℓ} → (Stage → List A) → List Stage → List A
all_of f [] = []
all_of f (s ∷ stages) = f s ++ all_of f stages

module _ (infer_to_train train_to_infer : Dict ℕ ℕ) (r w : ℕ)
    (send_ops recv_ops : Dict ℕ (List CommunicationOperation)) where
  abbrev sends_at : ℕ → List P2pOp
  sends_at s =
      let to = send_to_rank r s w in unless (to == r) (to_peer to (entries (get send_ops to)))

  abbrev copies_at : ℕ → List CommunicationOperation
  copies_at s = let to = send_to_rank r s w in if to == r then entries (get send_ops to) else []

  abbrev recvs_at : (train : ℕ → ℕ) → ℕ → List P2pOp
  recvs_at train s =
      let from = recv_from_rank r s w in
      unless (from == r) (to_peer from (entries (get recv_ops (train from))))

  abbrev stage_at : (train : ℕ → ℕ) → ℕ → Stage
  stage_at train s = record {
    stage_offset = s;
    sends = sends_at s;
    recvs = recvs_at train s;
    copies = copies_at s;
  }

  build_stage-ok :
      (ready : IsReady infer_to_train train_to_infer w send_ops recv_ops)
      → r < w
      → (s : ℕ) → s < w
      → build_stage infer_to_train train_to_infer r w send_ops recv_ops s
        ≡ ok (stage_at ready.train s)
  unfolding build_stage item
  build_stage-ok ready hr s hs =
      let to = send_to_rank r s w in
      let from = recv_from_rank r s w in
      let hf = recv_from_rank-lt r w s hr hs in
      let e0 = stage_sends-ok r to (get send_ops to) (λ ops e. (ready.sends to ops e).1) in
      let e1 = ready.to_train from hf in
      let e2 = ready.to_infer from hf in
      let e3 =
        stage_recvs-ok r from (ready.train from) from (get recv_ops (ready.train from))
          (λ ops e. (ready.recvs (ready.train from) ops e).1) in
      let e4 = built-fine (to == r) to (get send_ops to) (λ ops e. (ready.sends to ops e).0) in
      let e5 =
        built-fine (from == r) from (get recv_ops (ready.train from))
          (λ ops e. (ready.recvs (ready.train from) ops e).0) in
      rw (build_stage, e0, item, e1, e2, e3) (rw e4 (rw e5 refl))

  build_stages-ok :
      (ready : IsReady infer_to_train train_to_infer w send_ops recv_ops)
      → r < w
      → (n k : ℕ) → k + n ≤ w
      → (stages : List Stage) × (build_stages infer_to_train train_to_infer r w send_ops recv_ops n
            k
          ≡ ok stages)
        × (all_of (λ s. s.sends) stages ≡ over sends_at k n)
        × (all_of (λ s. s.recvs) stages ≡ over (recvs_at ready.train) k n)
        × (all_of (λ s. s.copies) stages ≡ over copies_at k n)
  unfolding build_stages
  build_stages-ok ready hr zero k h = ([], refl, refl, refl, refl)
  build_stages-ok ready hr (suc n) k h =
      let first = build_stage-ok ready hr k (omega arith) in
      let (rest, e, es, er, ec) = build_stages-ok ready hr n (k + 1) (omega arith) in
      (
        stage_at ready.train k ∷ rest,
        rw (build_stages, first, e) refl,
        ap (λ xs. sends_at k ++ xs) es,
        ap (λ xs. recvs_at ready.train k ++ xs) er,
        ap (λ xs. copies_at k ++ xs) ec,
      )

peer_hits :
    (r to p : ℕ) (F : ℕ → List CommunicationOperation) (hit : Bool)
    → (to == p) ≡ hit
    → (p == r) ≡ false
    → select (λ o. o.peer == p) (unless (to == r) (to_peer to (F to)))
      ≡ (if hit then to_peer p (F p) else [])
peer_hits r to p F true h other =
    let e = (==_iff to p).0 h in
    let not_own : (to == r) ≡ false = ap (λ n. n == r) e ∙ other in
    rw (not_own, if◌then◌else◌)
      (ap (λ n. select (λ o. o.peer == p) (to_peer n (F n))) e ∙ select-to_peer_same p (F p))
peer_hits r to p F false h other = elim (Bool-cases (to == r)) [
  | inl t ↦ rw (t, if◌then◌else◌) refl
  | inr t ↦ rw (t, if◌then◌else◌) (select-to_peer_other p to (F to) h)
]

select-all {ℓ} : {A : Type ℓ} (xs : List A) → select (λ x. true) xs ≡ xs
select-all [] = refl
select-all (x ∷ xs) = ap (◌∷◌ x) (select-all xs)

copy_hits :
    (r to : ℕ) (F : ℕ → List CommunicationOperation) (hit : Bool)
    → (to == r) ≡ hit
    → select (λ op. true) (if to == r then F to else []) ≡ (if hit then F r else [])
copy_hits r to F true h = rw (h, if◌then◌else◌) (select-all (F to) ∙ ap F ((==_iff to r).0 h))
copy_hits r to F false h = rw (h, if◌then◌else◌) refl

-- From plans that fit the rank, the stages are built, and they hold everything once: the sends to
-- another rank are the operations under that rank, in their order; the receives from another rank
-- of the ring are the operations under the training rank of that rank's device, in their order; and
-- the copies are the operations under the rank itself.
pub build_stages-once :
    (infer_to_train train_to_infer : Dict ℕ ℕ) (r w : ℕ)
    (send_ops recv_ops : Dict ℕ (List CommunicationOperation))
    → (ready : IsReady infer_to_train train_to_infer w send_ops recv_ops) → r < w
    → (stages : List Stage) × (build_stages infer_to_train train_to_infer r w send_ops recv_ops w 0
        ≡ ok stages)
      × ((p : ℕ)
          → p < w
          → (p == r) ≡ false
          → (select (λ o. o.peer == p) (all_of (λ s. s.sends) stages)
              ≡ to_peer p (entries (get send_ops p)))
            × (select (λ o. o.peer == p) (all_of (λ s. s.recvs) stages)
                ≡ to_peer p (entries (get recv_ops (ready.train p)))))
      × (all_of (λ s. s.copies) stages ≡ entries (get send_ops r))
build_stages-once infer_to_train train_to_infer r w send_ops recv_ops ready hr =
    let (stages, e, es, er, ec) =
      build_stages-ok infer_to_train train_to_infer r w send_ops recv_ops ready hr w 0
        (omega arith) in
    let own : stage_to r r w < w = stage_to-lt r r w hr hr in
    (
      stages,
      e,
      (λ p hp other. (
        ap (select (λ o. o.peer == p)) es
            ∙ over-hit (sends_at infer_to_train train_to_infer r w send_ops recv_ops)
                (λ o. o.peer == p) (stage_to r p w) w (to_peer p (entries (get send_ops p)))
                (λ s hs.
                  peer_hits r (send_to_rank r s w) p (λ n. entries (get send_ops n))
                    (s == stage_to r p w) (send_to_rank_iff r p w s hr hp hs) other)
                w 0 (omega arith) (omega arith) (omega (arith, stage_to-lt r p w hr hp)),
        ap (select (λ o. o.peer == p)) er
            ∙ over-hit (recvs_at infer_to_train train_to_infer r w send_ops recv_ops ready.train)
                (λ o. o.peer == p) (stage_to p r w) w
                (to_peer p (entries (get recv_ops (ready.train p))))
                (λ s hs.
                  peer_hits r (recv_from_rank r s w) p (λ n. entries (get recv_ops (ready.train n)))
                    (s == stage_to p r w) (recv_from_rank_iff r p w s hr hp hs) other)
                w 0 (omega arith) (omega arith) (omega (arith, stage_to-lt p r w hp hr)),
      )),
      ec
          ∙ sym (
              select-all (over (copies_at infer_to_train train_to_infer r w send_ops recv_ops) 0 w))
          ∙ over-hit (copies_at infer_to_train train_to_infer r w send_ops recv_ops) (λ op. true)
              (stage_to r r w) w (entries (get send_ops r))
              (λ s hs.
                copy_hits r (send_to_rank r s w) (λ n. entries (get send_ops n))
                  (s == stage_to r r w) (send_to_rank_iff r r w s hr hr hs))
              w 0 (omega arith) (omega arith) (omega (arith, own)),
    )

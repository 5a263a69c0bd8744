-- ===== src/Transport/Comm/Interleave.antt =====
-- `_interleave_p2p_ops_by_peer` of awex/transfer/nccl_comm.py. The fuel of the while loop is the
-- number of operations: a pass takes one of each peer that has any left. Where operations remained
-- after as many passes, the model would fault with out_of_fuel.
pub mod Fair
pub mod Kept
use asystem_awex.Prelude.{
  ℕ, zero, suc, ◌+◌, ◌-◌, ◌≡◌, refl, Bool, true, false, Option, none, some, List, [], ◌∷◌, ◌++◌,
  map, length, get_elem?, sum_by, ltb, ◌==◌, is_nil, if◌then◌else◌,
}
use asystem_awex.Prelude.Equality.{nat_eq}
use asystem_awex.Prelude.Dict.{Dict, get, put, keys, values, group_by, bucket}
use asystem_awex.Prelude.Sort.{sort_on, nat_ord}
use asystem_awex.Prelude.Result.{Result, ok, err, out_of_fuel, ◌>>=◌}

-- The variables of the loop.
pub record Interleaving {ℓ} (A : Type ℓ) : Type ℓ where
  pub progress : ℕ → ℕ
  pub remaining : ℕ
  pub interleaved : List A

-- progress[peer] = idx
unfoldable pub set_progress : (ℕ → ℕ) → (peer idx : ℕ) → ℕ → ℕ
set_progress progress peer idx p = if p == peer then idx else progress p

module _ {ℓ} {A : Type ℓ} (peer_of : A → ℕ) where
  -- The body of the inner loop: the operation of the peer that is next, where there is one.
  pub take_next : Option A → (peer : ℕ) → Interleaving A → Interleaving A
  unfolding set_progress
  take_next none peer s = s
  take_next (some op) peer s = record {
    progress = set_progress s.progress peer (s.progress peer + 1);
    remaining = s.remaining - 1;
    interleaved = s.interleaved ++ op ∷ [];
  }

  pub take_one : (by_peer : Dict ℕ (List A)) → (peer : ℕ) → Interleaving A → Interleaving A
  unfolding take_next
  take_one by_peer peer s = take_next (get_elem? (bucket by_peer peer) (s.progress peer)) peer s

  -- for peer in peers
  pub one_pass : (by_peer : Dict ℕ (List A)) → List ℕ → Interleaving A → Interleaving A
  unfolding take_one
  one_pass by_peer [] s = s
  one_pass by_peer (peer ∷ peers) s = one_pass by_peer peers (take_one by_peer peer s)

  -- while remaining > 0
  pub passes :
      (fuel : ℕ) → (by_peer : Dict ℕ (List A)) → List ℕ → Interleaving A → Result (Interleaving A)
  unfolding one_pass
  passes zero by_peer peers s = elim (ltb 0 s.remaining) [ true ↦ err out_of_fuel | false ↦ ok s ]
  passes (suc fuel) by_peer peers s = elim (ltb 0 s.remaining) [
    | true ↦ passes fuel by_peer peers (one_pass by_peer peers s)
    | false ↦ ok s
  ]

  unfoldable pub interleave_p2p_ops_by_peer : List A → Result (List A)
  unfolding passes
  interleave_p2p_ops_by_peer ops =
      let by_peer = group_by peer_of ops in
      let peers = sort_on (λ peer. peer) (keys by_peer) in
      passes (length ops) by_peer peers (record {
        progress = λ peer. 0;
        remaining = sum_by length (values by_peer);
        interleaved = [];
      })
      >>= λ s. ok s.interleaved

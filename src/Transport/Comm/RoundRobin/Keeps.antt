-- ===== src/Transport/Comm/RoundRobin/Keeps.antt =====
-- What every visit keeps holds of what going round builds.
use asystem_awex.Prelude.{
  ℕ, zero, suc, ◌≡◌, subst, List, [], ◌∷◌, get_elem?, inl, inr, Option-cases,
}
use asystem_awex.Prelude.Equality.{nat_eq}
use asystem_awex.Prelude.Dict.{Dict, bucket}
use asystem_awex.Prelude.Result.{Result, ok, >>=-eq-ok, ok-injective}
use asystem_awex.Plan.Shards.{CommunicationOperation}
use asystem_awex.Transport.Comm.RoundRobin.{Going, one_round, rounds, go_round}

module _ {ℓ κ} {S : Type ℓ} (visit : ℕ → CommunicationOperation → S → Result S)
    (operations : Dict ℕ (List CommunicationOperation)) (P : S → Type κ)
    (keeps : (r : ℕ) (op : CommunicationOperation) (s now : S)
      → visit r op s ≡ ok now
      → P s
      → P now) where
  one_round-keeps :
      (ranks : List ℕ) (g : Going S) {out : Going S × List ℕ}
      → one_round visit operations ranks g ≡ ok out
      → P g.built
      → P out.0.built
  unfolding one_round
  one_round-keeps [] g h p = subst (λ o. P o.0.built) (ok-injective h) p
  one_round-keeps (r ∷ ranks) g h p =
      elim (Option-cases (get_elem? (bucket operations r) (g.progress r))) [
        | inl t ↦
            let (rest, done, same) =
              >>=-eq-ok (one_round visit operations ranks g) _ (rw (one_round, t) at h) in
            subst (λ o. P o.0.built) (ok-injective same) (one_round-keeps ranks g done p)
        | inr (op, t) ↦
            let (now, visited, done) = >>=-eq-ok (visit r op g.built) _ (rw (one_round, t) at h) in
            one_round-keeps ranks _ done (keeps r op g.built now visited p)
      ]

  rounds-keeps :
      (fuel : ℕ) (ranks : List ℕ) (g : Going S) {end : S}
      → rounds visit operations fuel ranks g ≡ ok end
      → P g.built
      → P end
  unfolding rounds
  rounds-keeps zero [] g h p = subst P (ok-injective h) p
  rounds-keeps (suc fuel) [] g h p = subst P (ok-injective h) p
  rounds-keeps zero (r ∷ ranks) g h p = absurd (cc)
  rounds-keeps (suc fuel) (r ∷ ranks) g h p =
      let (out, done, more) = >>=-eq-ok (one_round visit operations (r ∷ ranks) g) _ h in
      rounds-keeps fuel _ out.0 more (one_round-keeps (r ∷ ranks) g done p)

  pub go_round-keeps :
      (start : S) {end : S} → go_round visit operations start ≡ ok end → P start → P end
  unfolding go_round
  go_round-keeps start h p = rounds-keeps _ _ _ h p

-- ===== src/Transport/Comm/RoundRobin/Visits.antt =====
-- Going round takes every operation of every rank, in the order of the rank.
use asystem_awex.Prelude.{
  ℕ, zero, suc, ◌+◌, ◌≤◌, ◌≡◌, ◌⊎◌, refl, sym, ap, ◌∙◌, subst, true, not, ◌||◌, some, List, [], ◌∷◌,
  ◌++◌, map, any, select, length, get_elem?, take, arith, inl, inr, Bool-cases, Option-cases, ◌==◌,
  ==_iff, ==_refl, if◌then◌else◌,
}
use asystem_awex.Prelude.Equality.{nat_eq}
use asystem_awex.Prelude.Dict.{Dict, bucket}
use asystem_awex.Prelude.Result.{Result, ok, ◌>>=◌}
use asystem_awex.Plan.Shards.{CommunicationOperation}
use asystem_awex.Transport.Comm.Interleave.{set_progress}
use asystem_awex.Transport.Comm.Interleave.Fair.{take-suc, take-all, none_left}
use asystem_awex.Transport.Comm.RoundRobin.Progress.{
  get_elem?-below, set_progress-grows, set_progress_own, set_progress_other, any-kept, none-kept,
}
use asystem_awex.Transport.Comm.RoundRobin.{Going, one_round, rounds}

-- What is built is observed for each rank: a visit of a rank adds an observation to that rank's.
module _ {ℓ κ} {S : Type ℓ} {B : Type κ} (visit : ℕ → CommunicationOperation → S → Result S)
    (operations : Dict ℕ (List CommunicationOperation)) (obs : ℕ → S → List B)
    (seen : ℕ → CommunicationOperation → B)
    (visited : (r i : ℕ) (op : CommunicationOperation) (s : S)
      → get_elem? (bucket operations r) i ≡ some op
      → (now : S) × (visit r op s ≡ ok now)
        × ((p : ℕ) → obs p now ≡ (if r == p then obs p s ++ seen r op ∷ [] else obs p s))) where
  -- The observations of a rank are those of its operations up to its progress.
  abbrev pub Right : Going S → Type κ
  Right g = (p : ℕ) → obs p g.built ≡ map (seen p) (take (g.progress p) (bucket operations p))

  abbrev pub Within : (p f : ℕ) → Going S → Type 0
  Within p f g = length (bucket operations p) ≤ g.progress p + f

  map-snoc :
      (p : ℕ) (xs : List CommunicationOperation) (op : CommunicationOperation)
      → map (seen p) (xs ++ op ∷ []) ≡ map (seen p) xs ++ seen p op ∷ []
  map-snoc p [] op = refl
  map-snoc p (x ∷ xs) op = ap (◌∷◌ (seen p x)) (map-snoc p xs op)

  step-Right :
      (g : Going S) (r : ℕ) (op : CommunicationOperation) (now : S)
      → get_elem? (bucket operations r) (g.progress r) ≡ some op
      → ((p : ℕ) → obs p now ≡ (if r == p then obs p g.built ++ seen r op ∷ [] else obs p g.built))
      → Right g
      → Right (record { progress = set_progress g.progress r (g.progress r + 1); built = now })
  step-Right g r op now found shown right p = elim (Bool-cases (r == p)) [
    | inl t ↦
        let e = (==_iff r p).0 t in
        let more : obs r now ≡ obs r g.built ++ seen r op ∷ [] =
          shown r
          ∙ ap (λ b. if b then obs r g.built ++ seen r op ∷ [] else obs r g.built) (==_refl r) in
        let own : obs r now
            ≡ map (seen r)
                (take (set_progress g.progress r (g.progress r + 1) r) (bucket operations r)) =
          more
          ∙ ap (λ xs. xs ++ seen r op ∷ []) (right r)
          ∙ sym (map-snoc r (take (g.progress r) (bucket operations r)) op)
          ∙ ap (map (seen r)) (sym (take-suc (bucket operations r) (g.progress r) op found))
          ∙ ap (λ n. map (seen r) (take n (bucket operations r)))
              (sym (set_progress_own g.progress r (g.progress r + 1))) in
        subst
          (λ q.
            obs q now
            ≡ map (seen q)
                (take (set_progress g.progress r (g.progress r + 1) q) (bucket operations q)))
          e own
    | inr t ↦
        shown p
        ∙ ap (λ b. if b then obs p g.built ++ seen r op ∷ [] else obs p g.built) t
        ∙ right p
        ∙ ap (λ n. map (seen p) (take n (bucket operations p)))
            (sym (set_progress_other g.progress r (g.progress r + 1) p t))
  ]

  -- One round, and what it leaves to do.
  record Round (ranks : List ℕ) (g : Going S) (outcome : Result (Going S × List ℕ))
      : Type (ℓ ⊔ κ) where
    after : Going S
    finished : List ℕ
    outcome_ok : outcome ≡ ok (after, finished)
    right : Right after
    grows : (p : ℕ) → g.progress p ≤ after.progress p
    ahead : (p f : ℕ) → any (λ q. q == p) ranks ≡ true → Within p (suc f) g → Within p f after
    done : (p : ℕ) → any (λ q. q == p) finished ≡ true → Within p 0 after
    all_done : ((p : ℕ) → Within p 0 g) → finished ≡ ranks

  Round-of :
      (ranks : List ℕ) (g : Going S) → Right g → Round ranks g (one_round visit operations ranks g)
  unfolding one_round
  Round-of [] g right = record {
    after = g;
    finished = [];
    outcome_ok = refl;
    right = right;
    grows = λ p. omega arith;
    ahead = λ p f h w. absurd (cc);
    done = λ p h. absurd (cc);
    all_done = λ h. refl;
  }
  Round-of (r ∷ ranks) g right =
      elim (Option-cases (get_elem? (bucket operations r) (g.progress r))) [
        | inl t ↦
            let rest = Round-of ranks g right in
            record {
              after = rest.after;
              finished = r ∷ rest.finished;
              outcome_ok = rw (one_round, t, rest.outcome_ok) refl;
              right = rest.right;
              grows = rest.grows;
              ahead = λ p f h w. elim (Bool-cases (r == p)) [
                | inl t' ↦
                    let low = none_left (bucket operations r) (g.progress r) f t in
                    let more = rest.grows r in
                    subst (λ q. Within q f rest.after) ((==_iff r p).0 t')
                      (omega (arith, low, more))
                | inr t' ↦ rest.ahead p f (rw (t', ◌||◌) at h) w
              ];
              done = λ p h. elim (Bool-cases (r == p)) [
                | inl t' ↦
                    let low = none_left (bucket operations r) (g.progress r) 0 t in
                    let more = rest.grows r in
                    subst (λ q. Within q 0 rest.after) ((==_iff r p).0 t')
                      (omega (arith, low, more))
                | inr t' ↦ rest.done p (rw (t', ◌||◌) at h)
              ];
              all_done = λ h. ap (◌∷◌ r) (rest.all_done h);
            }
        | inr (op, t) ↦
            let (now, made, shown) = visited r (g.progress r) op g.built t in
            let rest =
              Round-of ranks
                (record { progress = set_progress g.progress r (g.progress r + 1); built = now })
                (step-Right g r op now t shown right) in
            record {
              after = rest.after;
              finished = rest.finished;
              outcome_ok = rw (one_round, t, made, ◌>>=◌) rest.outcome_ok;
              right = rest.right;
              grows = λ p. omega (arith, set_progress-grows g.progress r p, rest.grows p);
              ahead = λ p f h w. elim (Bool-cases (r == p)) [
                | inl t' ↦
                    let e = (==_iff r p).0 t' in
                    let own = set_progress_own g.progress r (g.progress r + 1) in
                    let mine = subst (λ q. Within q (suc f) g) (sym e) w in
                    let more = rest.grows r in
                    subst (λ q. Within q f rest.after) e (omega (arith, own, mine, more))
                | inr t' ↦
                    let grown = set_progress-grows g.progress r p in
                    rest.ahead p f (rw (t', ◌||◌) at h) (omega (arith, w, grown))
              ];
              done = rest.done;
              all_done = λ h.
                  let low = get_elem?-below (bucket operations r) (g.progress r) op t in
                  let high = h r in absurd (omega (arith, low, high));
            }
      ]

  -- How far the loop has to go: a rank either is done, or is unfinished with at most f operations.
  abbrev pub ToGo : (f : ℕ) → List ℕ → Going S → Type 0
  ToGo f unfinished g =
      (p : ℕ) → Within p 0 g ⊎ ((any (λ q. q == p) unfinished ≡ true) × Within p f g)

  -- The outcome when no rank is unfinished.
  Ends : (fuel : ℕ) → List ℕ → Going S → Type (ℓ ⊔ κ)
  Ends fuel unfinished g =
      (end : S) × (rounds visit operations fuel unfinished g ≡ ok end)
      × ((p : ℕ) → obs p end ≡ map (seen p) (bucket operations p))

  Ends-nil : (fuel : ℕ) (g : Going S) → Right g → ((p : ℕ) → Within p 0 g) → Ends fuel [] g
  unfolding rounds Ends
  Ends-nil zero g right w = (
    g.built,
    refl,
    λ p.
        right p
        ∙ ap (map (seen p)) (take-all (g.progress p) (bucket operations p) (omega (arith, w p))),
  )
  Ends-nil (suc fuel) g right w = (
    g.built,
    refl,
    λ p.
        right p
        ∙ ap (map (seen p)) (take-all (g.progress p) (bucket operations p) (omega (arith, w p))),
  )

  nobody : (f : ℕ) (g : Going S) → ToGo f [] g → (p : ℕ) → Within p 0 g
  nobody f g go p = elim (go p) [ inl w ↦ w | inr (h, w) ↦ absurd (cc) ]

  next-ToGo :
      (f r : ℕ) (ranks : List ℕ) (g : Going S)
      → ToGo (suc f) (r ∷ ranks) g
      → (o : Round (r ∷ ranks) g (one_round visit operations (r ∷ ranks) g))
      → ToGo f (select (λ r. not (any (λ q. q == r) o.finished)) (r ∷ ranks)) o.after
  next-ToGo f r ranks g go o p = elim (go p) [
    | inl w ↦ let more = o.grows p in inl (omega (arith, w, more))
    | inr (h, w) ↦ elim (Bool-cases (any (λ q. q == p) o.finished)) [
      | inl t ↦ inl (o.done p t)
      | inr t ↦ inr (any-kept p o.finished (r ∷ ranks) t h, o.ahead p f h w)
    ]
  ]

  pub rounds-Ends :
      (f fuel : ℕ) (unfinished : List ℕ) (g : Going S)
      → f + 1 ≤ fuel
      → Right g
      → ToGo f unfinished g
      → (end : S) × (rounds visit operations fuel unfinished g ≡ ok end)
        × ((p : ℕ) → obs p end ≡ map (seen p) (bucket operations p))
  unfolding rounds Ends
  rounds-Ends f fuel [] g h right go = Ends-nil fuel g right (nobody f g go)
  rounds-Ends f zero (r ∷ ranks) g h right go = absurd (omega arith)
  rounds-Ends zero (suc fuel) (r ∷ ranks) g h right go =
      let o = Round-of (r ∷ ranks) g right in
      let within : (p : ℕ) → Within p 0 g = λ p. elim (go p) [ inl w ↦ w | inr (k, w) ↦ w ] in
      let all_of = o.all_done within in
      let empty =
        none-kept o.finished (r ∷ ranks)
          (λ p k. subst (λ xs. any (λ q. q == p) xs ≡ true) (sym all_of) k) in
      let (end, e, shown) =
        Ends-nil fuel o.after o.right
          (λ p. let more = o.grows p in let w = within p in omega (arith, w, more)) in
      (
        end,
        rw (rounds, o.outcome_ok, ◌>>=◌)
            (ap (λ u. rounds visit operations fuel u o.after) empty ∙ e),
        shown,
      )
  rounds-Ends (suc f) (suc fuel) (r ∷ ranks) g h right go =
      let o = Round-of (r ∷ ranks) g right in
      let (end, e, shown) =
        rounds-Ends f fuel (select (λ r. not (any (λ q. q == r) o.finished)) (r ∷ ranks)) o.after
          (omega arith) o.right (next-ToGo f r ranks g go o) in
      (end, rw (rounds, o.outcome_ok, ◌>>=◌) e, shown)

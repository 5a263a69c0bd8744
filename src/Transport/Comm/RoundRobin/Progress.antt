-- ===== src/Transport/Comm/RoundRobin/Progress.antt =====
-- The progress of a rank, and the ranks that stay unfinished.
use asystem_awex.Prelude.{
  ℕ, zero, suc, ◌+◌, ◌<◌, ◌≤◌, ◌≡◌, refl, sym, ap, subst, Bool, true, false, not, ◌||◌, some, List,
  [], ◌∷◌, any, select, length, get_elem?, arith, inl, inr, Bool-cases, ◌==◌, ==_iff, ==_refl,
  if◌then◌else◌,
}
use asystem_awex.Prelude.Equality.{nat_eq}
use asystem_awex.Transport.Comm.Interleave.{set_progress}

pub get_elem?-below {ℓ} :
    {A : Type ℓ} (xs : List A) (i : ℕ) (x : A) → get_elem? xs i ≡ some x → i < length xs
get_elem?-below [] i x h = absurd (cc)
get_elem?-below (y ∷ xs) zero x h = omega arith
get_elem?-below (y ∷ xs) (suc i) x h = let rest = get_elem?-below xs i x h in omega arith

pub any-later :
    (p r : ℕ) (xs : List ℕ) → any (λ q. q == p) xs ≡ true → any (λ q. q == p) (r ∷ xs) ≡ true
any-later p r xs h = ground arith

pub any-if :
    (p r : ℕ) (b : Bool) (xs : List ℕ)
    → any (λ q. q == p) xs ≡ true
    → any (λ q. q == p) (if b then r ∷ xs else xs) ≡ true
any-if p r true xs h = any-later p r xs h
any-if p r false xs h = h

pub set_progress-grows :
    (progress : ℕ → ℕ) (r p : ℕ) → progress p ≤ set_progress progress r (progress r + 1) p
unfolding set_progress
set_progress-grows progress r p = elim (Bool-cases (p == r)) [
  | inl t ↦
      let e = ap progress ((==_iff p r).0 t) in rw (set_progress, t, if◌then◌else◌) (omega arith)
  | inr t ↦ rw (set_progress, t, if◌then◌else◌) (omega arith)
]

pub set_progress_own : (progress : ℕ → ℕ) (r n : ℕ) → set_progress progress r n r ≡ n
unfolding set_progress
set_progress_own progress r n = let self = ==_refl r in rw (set_progress, self, if◌then◌else◌) refl

pub set_progress_other :
    (progress : ℕ → ℕ) (r n p : ℕ) → (r == p) ≡ false → set_progress progress r n p ≡ progress p
unfolding set_progress
set_progress_other progress r n p h =
    let other : (p == r) ≡ false = ground arith in rw (set_progress, other, if◌then◌else◌) refl

pub any-kept :
    (p : ℕ) (finished ranks : List ℕ)
    → any (λ q. q == p) finished ≡ false
    → any (λ q. q == p) ranks ≡ true
    → any (λ q. q == p) (select (λ r. not (any (λ q. q == r) finished)) ranks) ≡ true
any-kept p finished [] h k = absurd (cc)
any-kept p finished (r ∷ ranks) h k = elim (Bool-cases (r == p)) [
  | inl t ↦
      let e = (==_iff r p).0 t in
      let open_still : any (λ q. q == r) finished ≡ false =
        subst (λ z. any (λ q. q == z) finished ≡ false) (sym e) h in
      rw (open_still, if◌then◌else◌) (rw (t, ◌||◌) refl)
  | inr t ↦ any-if p r _ _ (any-kept p finished ranks h (rw (t, ◌||◌) at k))
]

pub none-kept :
    (finished ranks : List ℕ)
    → ((p : ℕ) → any (λ q. q == p) ranks ≡ true → any (λ q. q == p) finished ≡ true)
    → select (λ r. not (any (λ q. q == r) finished)) ranks ≡ []
none-kept finished [] h = refl
none-kept finished (r ∷ ranks) h =
    let self = ==_refl r in
    let here : any (λ q. q == r) finished ≡ true = h r (rw (self, ◌||◌) refl) in
    rw (here, if◌then◌else◌) (none-kept finished ranks (λ p k. h p (any-later p r ranks k)))

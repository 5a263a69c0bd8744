-- ===== src/Packing/Places.antt =====
-- The indices of the metadata, and what the writes of tensors at their places leave.
use asystem_awex.Prelude.{
  ℕ, zero, suc, ◌+◌, ◌<◌, ◌≤◌, ◌≡◌, refl, sym, ap, ap₂, ◌∙◌, subst, false, Option, some, List, [],
  ◌∷◌, ◌++◌, map, set, get_elem?, length, count_by, Each, arith, ◌⊎◌, inl, inr, Bool-cases, ◌==◌,
  ==_iff, if◌then◌else◌,
}
use asystem_awex.Prelude.Equality.{list_eq, nat_eq, pair_eq}
use asystem_awex.Packing.{Torch, max_of, describe}
use asystem_awex.Packing.Batches.{describe_all, flatten, writes}
use asystem_awex.Packing.Grouped.{AtPlace}

get_elem?-set :
    {A : Type 0} (xs : List A) (i j : ℕ) (v : A)
    → i < length xs
    → get_elem? (set xs i v) j ≡ (if i == j then some v else get_elem? xs j)
get_elem?-set [] i j v h = absurd (omega arith)
get_elem?-set (x ∷ xs) zero zero v h = refl
get_elem?-set (x ∷ xs) zero (suc j) v h = ground arith
get_elem?-set (x ∷ xs) (suc i) zero v h = ground arith
get_elem?-set (x ∷ xs) (suc i) (suc j) v h = ground (arith, get_elem?-set xs i j v (omega arith))

length-set : {A : Type 0} (xs : List A) (i : ℕ) (v : A) → length (set xs i v) ≡ length xs
length-set [] i v = refl
length-set (x ∷ xs) zero v = refl
length-set (x ∷ xs) (suc i) v = ap suc (length-set xs i v)

-- A list of results that has every tensor at its place is the list of the tensors.
pub map-some_of :
    {A : Type 0} (xs : List A) (r : List (Option A))
    → length r ≡ length xs
    → ((n : ℕ) (x : A) → get_elem? xs n ≡ some x → get_elem? r n ≡ some (some x))
    → r ≡ map some xs
map-some_of [] [] h at = refl
map-some_of (x ∷ xs) (o ∷ r) h at =
    let e = at 0 x refl in
    let same : o ≡ some x = cc in
    ap₂ ◌∷◌ same (map-some_of xs r (omega arith) (λ n y k. at (suc n) y k))
map-some_of [] (o ∷ r) h at = absurd (omega arith)
map-some_of (x ∷ xs) [] h at = absurd (omega arith)

pub max_of-bound :
    {T : Type 0} (m : ℕ) (pairs : List (ℕ × T))
    → Each (λ p. p.0 ≤ m) pairs
    → max_of (map (λ p. p.0) pairs) ≤ m
unfolding max_of
max_of-bound m [] h = omega arith
max_of-bound m (p ∷ pairs) h = let rest = max_of-bound m pairs h.1 in omega (arith, h.0)

pub max_of-reached :
    {T : Type 0} (m : ℕ) (pairs : List (ℕ × T))
    → 0 < count_by (λ p. p.0 == m) pairs
    → m ≤ max_of (map (λ p. p.0) pairs)
unfolding max_of
max_of-reached m [] h = absurd (omega arith)
max_of-reached m (p ∷ pairs) h = elim (Bool-cases (p.0 == m)) [
  | inl t ↦ let e = (==_iff p.0 m).0 t in omega arith
  | inr t ↦ let rest = max_of-reached m pairs (rw (t, if◌then◌else◌) at h) in omega arith
]

module _ {T : Type 0} (torch : Torch T) where
  indices-describe :
      (k offset : ℕ) (batch : List (ℕ × T))
      → map (λ item. item.original_index) (describe torch k offset batch) ≡ map (λ p. p.0) batch
  unfolding describe
  indices-describe k offset [] = refl
  indices-describe k offset ((i, t) ∷ batch) =
      ap (◌∷◌ i) (indices-describe k (offset + torch.numel t) batch)

  map-append {ℓ} :
      {A : Type ℓ} (f : A → ℕ) (xs ys : List A) → map f (xs ++ ys) ≡ map f xs ++ map f ys
  map-append f [] ys = refl
  map-append f (x ∷ xs) ys = ap (◌∷◌ (f x)) (map-append f xs ys)

  pub indices-describe_all :
      (k : ℕ) (batches : List (List (ℕ × T)))
      → map (λ item. item.original_index) (describe_all torch k batches)
        ≡ map (λ p. p.0) (flatten torch batches)
  indices-describe_all k [] = refl
  indices-describe_all k (batch ∷ batches) =
      map-append (λ item. item.original_index) (describe torch k 0 batch)
        (describe_all torch (k + 1) batches)
      ∙ ap₂ ◌++◌ (indices-describe k 0 batch) (indices-describe_all (k + 1) batches)
      ∙ sym (map-append (λ p. p.0) batch (flatten torch batches))

  pub length-writes :
      (pairs : List (ℕ × T)) (r : List (Option T)) → length (writes torch pairs r) ≡ length r
  length-writes [] r = refl
  length-writes ((i, t) ∷ pairs) r =
      length-writes pairs (set r i (some t)) ∙ length-set r i (some t)

  written_later :
      (i n : ℕ) (u : T) (pairs : List (ℕ × T)) (r : List (Option T)) (t : T)
      → (i == n) ≡ false
      → get_elem? (set r i (some u)) n ≡ (if i == n then some (some u) else get_elem? r n)
      → (0 < count_by (λ p. p.0 == n) ((i, u) ∷ pairs)) ⊎ (get_elem? r n ≡ some (some t))
      → (0 < count_by (λ p. p.0 == n) pairs) ⊎ (get_elem? (set r i (some u)) n ≡ some (some t))
  written_later i n u pairs r t other read (inl some_n) = inl (rw (other, if◌then◌else◌) at some_n)
  written_later i n u pairs r t other read (inr right) =
      inr (read ∙ rw (other, if◌then◌else◌) right)

  -- Writing tensors at their places leaves each place that is written, or was right before, right.
  pub writes-AtPlace :
      (tensors : List T) (pairs : List (ℕ × T)) (r : List (Option T)) (n : ℕ) (t : T)
      → Each (AtPlace torch tensors) pairs
      → Each (λ p. p.0 < length r) pairs
      → get_elem? tensors n ≡ some t
      → (0 < count_by (λ p. p.0 == n) pairs) ⊎ (get_elem? r n ≡ some (some t))
      → get_elem? (writes torch pairs r) n ≡ some (some t)
  writes-AtPlace tensors [] r n t h below at (inl some_n) = absurd (omega arith)
  writes-AtPlace tensors [] r n t h below at (inr right) = right
  writes-AtPlace tensors ((i, u) ∷ pairs) r n t h below at either =
      let below' = subst (λ m. Each (λ p. p.0 < m) pairs) (sym (length-set r i (some u))) below.1 in
      let read = get_elem?-set r i n (some u) below.0 in
      writes-AtPlace tensors pairs (set r i (some u)) n t h.1 below' at
        (elim (Bool-cases (i == n)) [
          | inl t' ↦
              let e = (==_iff i n).0 t' in
              let same : some u ≡ some t = sym h.0 ∙ ap (get_elem? tensors) e ∙ at in
              inr (read ∙ rw (t', if◌then◌else◌) (ap some same))
          | inr t' ↦ written_later i n u pairs r t t' read either
        ])

-- ===== src/Prelude/Dict.antt =====
-- Python's dict, in insertion order, over keys with `==`.
use mathlib.Core.Path.{◌≡◌, refl, sym, ◌∙◌}
use mathlib.Core.Logic.{◌⊎◌, inl, inr}
use mathlib.Core.Bool.{Bool, true, false, ◌||◌}
use mathlib.Core.List.{List, [], ◌∷◌, ◌++◌, map, append-nil, append_assoc}
use mathlib.Core.Option.{Option, none, some}
use native.Mathlib.Omega.{arith}
use asystem_awex.Prelude.Tests.{if◌then◌else◌, Bool-cases}
use asystem_awex.Prelude.Lists.{select, any, Each}
use asystem_awex.Prelude.Equality.{Eq, beq_refl}

abbrev pub Dict {ℓ κ} : Type ℓ → Type κ → Type (ℓ ⊔ κ)
Dict K V = List (K × V)

module _ {ℓ κ} {K : Type ℓ} {V : Type κ} where
  -- d.keys(), d.values()
  abbrev pub keys : Dict K V → List K
  keys = map (λ p. p.0)

  abbrev pub values : Dict K V → List V
  values = map (λ p. p.1)

module _ {ℓ κ} {K : Type ℓ} {V : Type κ} ⦃e : Eq K⦄ where
  -- d.get(k)
  abbrev pub get : Dict K V → K → Option V
  get [] k = none
  get ((j, v) ∷ d) k = if e.beq j k then some v else get d k

  -- k in d
  abbrev pub has : Dict K V → K → Bool
  has d k = any (λ p. e.beq p.0 k) d

  -- d[k] = v
  abbrev pub put : Dict K V → K → V → Dict K V
  put [] k v = (k, v) ∷ []
  put ((j, w) ∷ d) k v = if e.beq j k then (j, v) ∷ d else (j, w) ∷ put d k v

  -- del d[k], d.pop(k, None)
  abbrev pub remove : Dict K V → K → Dict K V
  remove [] k = []
  remove ((j, w) ∷ d) k = if e.beq j k then remove d k else (j, w) ∷ remove d k

  pub get-put :
      (d : Dict K V) (k j : K) (v : V) → get (put d k v) j ≡ (if e.beq k j then some v else get d j)
  get-put [] k j v = refl
  get-put ((i, w) ∷ d) k j v =
      ground (arith, e.beq_iff i k, e.beq_iff i j, e.beq_iff k j, get-put d k j v)

  pub get-remove :
      (d : Dict K V) (k j : K) → get (remove d k) j ≡ (if e.beq k j then none else get d j)
  get-remove [] k j = ground arith
  get-remove ((i, w) ∷ d) k j =
      ground (arith, e.beq_iff i k, e.beq_iff i j, e.beq_iff k j, get-remove d k j)

-- A dict of lists: d.setdefault(k, []).append(x), and the loop that groups a sequence by a key.
module _ {ℓ κ} {K : Type ℓ} {V : Type κ} ⦃e : Eq K⦄ where
  abbrev pub push : Dict K (List V) → K → V → Dict K (List V)
  push [] k x = (k, x ∷ []) ∷ []
  push ((j, xs) ∷ d) k x = if e.beq j k then (j, xs ++ x ∷ []) ∷ d else (j, xs) ∷ push d k x

  abbrev pub group_onto : (V → K) → Dict K (List V) → List V → Dict K (List V)
  group_onto f d [] = d
  group_onto f d (x ∷ xs) = group_onto f (push d (f x) x) xs

  abbrev pub group_by : (V → K) → List V → Dict K (List V)
  group_by f xs = group_onto f [] xs

  -- What d.get(k, []) gives.
  abbrev pub bucket : Dict K (List V) → K → List V
  bucket [] k = []
  bucket ((j, xs) ∷ d) k = if e.beq j k then xs else bucket d k

  pub bucket-put :
      (d : Dict K (List V)) (k j : K) (xs : List V)
      → bucket (put d k xs) j ≡ (if e.beq k j then xs else bucket d j)
  bucket-put [] k j xs = refl
  bucket-put ((i, ys) ∷ d) k j xs =
      ground (arith, e.beq_iff i k, e.beq_iff i j, e.beq_iff k j, bucket-put d k j xs)

  pub bucket-push :
      (d : Dict K (List V)) (k j : K) (x : V)
      → bucket (push d k x) j ≡ (if e.beq k j then bucket d j ++ x ∷ [] else bucket d j)
  bucket-push [] k j x = ground arith
  bucket-push ((i, xs) ∷ d) k j x =
      ground (arith, e.beq_iff i k, e.beq_iff i j, e.beq_iff k j, bucket-push d k j x)

  pub bucket-group_onto :
      (f : V → K) (d : Dict K (List V)) (xs : List V) (k : K)
      → bucket (group_onto f d xs) k ≡ bucket d k ++ select (λ x. e.beq (f x) k) xs
  bucket-group_onto f d [] k = sym (append-nil (bucket d k))
  bucket-group_onto f d (x ∷ xs) k =
      bucket-group_onto f (push d (f x) x) xs k ∙ regroup (Bool-cases (e.beq (f x) k))
    where
      regroup :
          (e.beq (f x) k ≡ true) ⊎ (e.beq (f x) k ≡ false)
          → bucket (push d (f x) x) k ++ select (λ y. e.beq (f y) k) xs
            ≡ bucket d k ++ select (λ y. e.beq (f y) k) (x ∷ xs)
      regroup (inl h) = simp (bucket-push, h, append_assoc)
      regroup (inr h) = simp (bucket-push, h)

  -- The group of a key holds the elements with that key, in their order.
  pub bucket-group_by :
      (f : V → K) (xs : List V) (k : K) → bucket (group_by f xs) k ≡ select (λ x. e.beq (f x) k) xs
  bucket-group_by f xs k = bucket-group_onto f [] xs k

-- Membership of keys.
module _ {ℓ κ} {K : Type ℓ} {V : Type κ} ⦃e : Eq K⦄ where
  pub get-missing : (d : Dict K V) (k : K) → has d k ≡ false → get d k ≡ none
  get-missing [] k h = refl
  get-missing ((j, v) ∷ d) k h = elim (Bool-cases (e.beq j k)) [
    | inl t ↦ absurd (cc (rw (t, ◌||◌) at h))
    | inr t ↦ rw (t, if◌then◌else◌) (get-missing d k (rw (t, ◌||◌) at h))
  ]

  pub get_of_has : (d : Dict K V) (k : K) → has d k ≡ true → (v : V) × (get d k ≡ some v)
  get_of_has [] k h = cc
  get_of_has ((j, v) ∷ d) k h = elim (Bool-cases (e.beq j k)) [
    | inl t ↦ (v, rw (t, if◌then◌else◌))
    | inr t ↦
        let (w, found) = get_of_has d k (rw (t, ◌||◌) at h) in (w, rw (t, if◌then◌else◌) found)
  ]

  pub has-missing : (d : Dict K V) (k : K) → get d k ≡ none → has d k ≡ false
  has-missing d k h = elim (Bool-cases (has d k)) [
    | inl t ↦ let (v, found) = get_of_has d k t in absurd (cc)
    | inr t ↦ t
  ]

  has-cons :
      (j : K × V) (d : Dict K V) (ks : List K)
      → Each (λ k. has d k ≡ true) ks
      → Each (λ k. has (j ∷ d) k ≡ true) ks
  has-cons j d [] h = tt
  has-cons j d (k ∷ ks) h = (ground (arith, h.0), has-cons j d ks h.1)

  pub has-keys : (d : Dict K V) → Each (λ k. has d k ≡ true) (keys d)
  has-keys [] = tt
  has-keys ((j, v) ∷ d) = (ground (arith, beq_refl j), has-cons (j, v) d (keys d) (has-keys d))

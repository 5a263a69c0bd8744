-- ===== src/Packing/Grouped.antt =====
-- The dictionary of the tensors by shape and type: every tensor is in it once, with those alike.
use asystem_awex.Prelude.{
  ℕ, zero, suc, ◌+◌, ◌<◌, ◌≡◌, refl, sym, ap₂, ◌∙◌, subst, Bool, List, [], ◌∷◌, length, get_elem?,
  some, count_by, count_by-append, Each, Each-append, arith, inl, inr, Bool-cases, ◌==◌,
  if◌then◌else◌,
}
use asystem_awex.Prelude.Equality.{Text, Eq, list_eq, nat_eq, pair_eq}
use asystem_awex.Prelude.Dict.{Dict, push, group_onto, group_by, values}
use asystem_awex.Prelude.Sort.{sort_on, nat_ord, Each-sort_on, count_by-sort_on}
use asystem_awex.Packing.{Torch, key_of, enumerate}
use asystem_awex.Packing.Batches.{Alike}
use asystem_awex.Packing.Kept.{SomeAlike, sorted_all}

-- How often something is in the lists of a dictionary.
abbrev count_in {ℓ κ} : {K : Type ℓ} {V : Type κ} → (V → Bool) → Dict K (List V) → ℕ
count_in p [] = 0
count_in p ((k, xs) ∷ d) = count_by p xs + count_in p d

-- What holds of every list of a dictionary of lists.
module _ {ℓ κ} {K : Type ℓ} {V : Type κ} ⦃e : Eq K⦄ where
  abbrev Under {μ} : (K → V → Type μ) → Dict K (List V) → Type μ
  Under P d = Each (λ p. Each (P p.0) p.1) d

  push-Under {μ} :
      (P : K → V → Type μ) (d : Dict K (List V)) (k : K) (x : V)
      → P k x
      → Under P d
      → Under P (push d k x)
  push-Under P [] k x h u = ((h, tt), tt)
  push-Under P ((j, xs) ∷ d) k x h u = elim (Bool-cases (e.beq j k)) [
    | inl t ↦
        let same : k ≡ j = sym ((e.beq_iff j k).0 t) in
        rw (t, if◌then◌else◌)
          (Each-append (P j) xs (x ∷ []) u.0 (subst (λ i. P i x) same h, tt), u.1)
    | inr t ↦ rw (t, if◌then◌else◌) (u.0, push-Under P d k x h u.1)
  ]

  group_onto-Under {μ} :
      (P : K → V → Type μ) (f : V → K) (d : Dict K (List V)) (xs : List V)
      → Each (λ x. P (f x) x) xs
      → Under P d
      → Under P (group_onto f d xs)
  group_onto-Under P f d [] h u = u
  group_onto-Under P f d (x ∷ xs) h u =
      group_onto-Under P f (push d (f x) x) xs h.1 (push-Under P d (f x) x h.0 u)

  count_in-push :
      (p : V → Bool) (d : Dict K (List V)) (k : K) (x : V)
      → count_in p (push d k x) ≡ (if p x then 1 else 0) + count_in p d
  count_in-push p [] k x = ground arith
  count_in-push p ((j, xs) ∷ d) k x =
      ground (arith, count_in-push p d k x, count_by-append p xs (x ∷ []))

  count_in-group_onto :
      (p : V → Bool) (f : V → K) (d : Dict K (List V)) (xs : List V)
      → count_in p (group_onto f d xs) ≡ count_by p xs + count_in p d
  count_in-group_onto p f d [] = omega arith
  count_in-group_onto p f d (x ∷ xs) =
      ground (arith, count_in-group_onto p f (push d (f x) x) xs, count_in-push p d (f x) x)

module _ {ℓ κ μ} {A : Type ℓ} (P : A → Type κ) (Q : A → Type μ) where
  Each-first : (xs : List A) → Each (λ x. P x × Q x) xs → Each P xs
  Each-first [] h = tt
  Each-first (x ∷ xs) h = (h.0.0, Each-first xs h.1)

  Each-second : (xs : List A) → Each (λ x. P x × Q x) xs → Each Q xs
  Each-second [] h = tt
  Each-second (x ∷ xs) h = (h.0.1, Each-second xs h.1)

module _ {T : Type 0} (torch : Torch T) where
  -- A tensor with a dimension and an element.
  abbrev pub Packable : T → Type 0
  Packable t = (0 < length (torch.shape t)) × (0 < torch.numel t)

  count-sorted_all :
      {K : Type 0} (p : ℕ × T → Bool) (d : Dict K (List (ℕ × T)))
      → count_by p (sorted_all (values d)) ≡ count_in p d
  count-sorted_all p [] = refl
  count-sorted_all p ((k, xs) ∷ d) =
      count_by-append p (sort_on (λ q. q.0) xs) (sorted_all (values d))
      ∙ ap₂ ◌+◌ (count_by-sort_on (λ q. q.0) p xs) (count-sorted_all p d)

  -- The numbered tensors from a number on, each at its place in the whole list.
  abbrev pub AtPlace : List T → ℕ × T → Type 0
  AtPlace tensors p = get_elem? tensors p.0 ≡ some p.1

  -- What the dictionary keeps of a tensor: its place, and that it is like its key.
  abbrev Filed : List T → List ℕ × Text → ℕ × T → Type 0
  Filed tensors k p = Alike torch k.0 k.1 p.1 × AtPlace tensors p

  enumerate-Filed :
      (tensors ts : List T) (i : ℕ)
      → Each Packable ts
      → ((n : ℕ) (t : T) → get_elem? ts n ≡ some t → get_elem? tensors (i + n) ≡ some t)
      → Each (λ p. Filed tensors (key_of torch p) p) (enumerate i ts)
  unfolding key_of
  enumerate-Filed tensors [] i h at = tt
  enumerate-Filed tensors (t ∷ ts) i h at =
      let here : i + 0 ≡ i = omega arith in
      (
        ((refl, refl, h.0.0, h.0.1), subst (λ n. get_elem? tensors n ≡ some t) here (at 0 t refl)),
        enumerate-Filed tensors ts (i + 1) h.1 (λ n u e.
            let shift : i + suc n ≡ i + 1 + n = omega arith in
            subst (λ m. get_elem? tensors m ≡ some u) shift (at (suc n) u e)),
      )

  values-SomeAlike :
      (tensors : List T) (d : Dict (List ℕ × Text) (List (ℕ × T)))
      → Under (Filed tensors) d
      → Each (SomeAlike torch) (values d)
  values-SomeAlike tensors [] u = tt
  values-SomeAlike tensors ((k, xs) ∷ d) u = (
    (k.0, k.1, Each-first (λ p. Alike torch k.0 k.1 p.1) (AtPlace tensors) xs u.0),
    values-SomeAlike tensors d u.1,
  )

  sorted_all-AtPlace :
      (tensors : List T) (d : Dict (List ℕ × Text) (List (ℕ × T)))
      → Under (Filed tensors) d
      → Each (AtPlace tensors) (sorted_all (values d))
  sorted_all-AtPlace tensors [] u = tt
  sorted_all-AtPlace tensors ((k, xs) ∷ d) u =
      Each-append (AtPlace tensors) (sort_on (λ p. p.0) xs) (sorted_all (values d))
        (Each-sort_on (λ p. p.0) (AtPlace tensors) xs
          (Each-second (λ p. Alike torch k.0 k.1 p.1) (AtPlace tensors) xs u.0))
        (sorted_all-AtPlace tensors d u.1)

  count-enumerate :
      (ts : List T) (i n : ℕ) → n < length ts → 0 < count_by (λ p. p.0 == (i + n)) (enumerate i ts)
  count-enumerate [] i n h = absurd (omega arith)
  count-enumerate (t ∷ ts) i zero h = ground arith
  count-enumerate (t ∷ ts) i (suc n) h =
      let shift : i + 1 + n ≡ i + suc n = omega arith in
      let more =
        subst (λ m. 0 < count_by (λ p. p.0 == m) (enumerate (i + 1) ts)) shift
          (count-enumerate ts (i + 1) n (omega arith)) in
      ground arith

  -- What the packing is given: groups of alike tensors, in which every tensor is at its place and
  -- every place occurs.
  pub record Complete (tensors : List T) (groups : List (List (ℕ × T))) : Type 0 where
    pub alike : Each (SomeAlike torch) groups
    pub at_place : Each (AtPlace tensors) (sorted_all groups)
    pub every_place :
        (n : ℕ) → n < length tensors → 0 < count_by (λ p. p.0 == n) (sorted_all groups)

  pub Complete-of :
      (tensors : List T)
      → Each Packable tensors
      → Complete tensors (values (group_by (key_of torch) (enumerate 0 tensors)))
  Complete-of tensors h =
      let filed =
        group_onto-Under (Filed tensors) (key_of torch) [] (enumerate 0 tensors)
          (enumerate-Filed tensors tensors 0 h (λ n t e.
            let here : n ≡ 0 + n = omega arith in subst (λ m. get_elem? tensors m ≡ some t) here e))
          tt in
      record {
        alike = values-SomeAlike tensors _ filed;
        at_place = sorted_all-AtPlace tensors _ filed;
        every_place = λ n below.
            let here : 0 + n ≡ n = omega arith in
            let some_n =
              subst (λ m. 0 < count_by (λ p. p.0 == m) (enumerate 0 tensors)) here
                (count-enumerate tensors 0 n below) in
            let same =
              count-sorted_all (λ p. p.0 == n) (group_by (key_of torch) (enumerate 0 tensors)) in
            let all_in =
              count_in-group_onto (λ p. p.0 == n) (key_of torch) [] (enumerate 0 tensors) in
            omega (arith, same, all_in, some_n);
      }

-- ===== src/Packing/Kept.antt =====
-- The packing keeps every tensor: the batches hold the numbered tensors, each once.
use asystem_awex.Prelude.{
  ℕ, ◌+◌, ◌*◌, ◌≡◌, refl, sym, ap, subst, false, List, [], ◌∷◌, ◌++◌, append-nil, append_assoc, map,
  is_nil, length, Each, Each-append, inl, inr, Bool-cases, ltb,
}
use asystem_awex.Prelude.Equality.{Text, list_eq, nat_eq, pair_eq}
use asystem_awex.Prelude.Sort.{sort_on, nat_ord, Each-sort_on}
use asystem_awex.Prelude.Result.{ok, ◌>>=◌}
use asystem_awex.Packing.{Torch, Packed, describe, finalize, split_group, split_groups}
use asystem_awex.Packing.Batches.{Alike, CatJoins, Holds-of, Extends, Extends-bind, Extends-nothing}

module _ {T : Type 0} (torch : Torch T) where
  abbrev pub AlikePairs : List ℕ → Text → List (ℕ × T) → Type 0
  AlikePairs shape dtype pairs = Each (λ p. Alike torch shape dtype p.1) pairs

  -- The tensors of a group of the dictionary are alike.
  abbrev pub SomeAlike : List (ℕ × T) → Type 0
  SomeAlike pairs = (shape : List ℕ) × (dtype : Text) × AlikePairs shape dtype pairs

-- The groups, each sorted.
abbrev pub sorted_all : {T : Type 0} → List (List (ℕ × T)) → List (ℕ × T)
sorted_all [] = []
sorted_all (g ∷ gs) = sort_on (λ p. p.0) g ++ sorted_all gs

module _ {T : Type 0} (torch : Torch T) (cat_joins : CatJoins torch) where
  Alike-tensors :
      (shape : List ℕ) (dtype : Text) (pairs : List (ℕ × T))
      → AlikePairs torch shape dtype pairs
      → Each (Alike torch shape dtype) (map (λ p. p.1) pairs)
  Alike-tensors shape dtype [] h = tt
  Alike-tensors shape dtype ((i, t) ∷ pairs) h = (h.0, Alike-tensors shape dtype pairs h.1)

  finalize-Extends :
      (shape : List ℕ) (dtype : Text) (current : List (ℕ × T)) (packed : Packed T)
      → is_nil current ≡ false
      → AlikePairs torch shape dtype current
      → Extends torch current packed (finalize torch current packed)
  unfolding finalize
  finalize-Extends shape dtype [] packed some_tensor alike = absurd (cc)
  finalize-Extends shape dtype ((i, t) ∷ current) packed some_tensor alike =
      let j =
        cat_joins shape dtype t (map (λ p. p.1) current)
          (Alike-tensors shape dtype ((i, t) ∷ current) alike) in
      record {
        batches = ((i, t) ∷ current) ∷ [];
        groups = j.joined ∷ [];
        outcome_ok =
            rw (finalize, j.cat_ok, ◌>>=◌)
              (ap
                (λ items. ok (record {
                  final_tensor_groups = packed.final_tensor_groups ++ j.joined ∷ [];
                  metadata = packed.metadata ++ items;
                }))
                (sym (
                  append-nil
                    (describe torch (length packed.final_tensor_groups) 0 ((i, t) ∷ current)))));
        held = (Holds-of torch ((i, t) ∷ current) refl shape dtype alike j, tt);
        all_given = append-nil ((i, t) ∷ current);
      }

  snoc-some : (xs : List (ℕ × T)) (x : ℕ × T) → is_nil (xs ++ x ∷ []) ≡ false
  snoc-some [] x = refl
  snoc-some (y ∷ xs) x = refl

  split_group-Extends :
      (shape : List ℕ) (dtype : Text) (limit : ℕ) (rest current : List (ℕ × T)) (size : ℕ)
      (packed : Packed T)
      → AlikePairs torch shape dtype current
      → AlikePairs torch shape dtype rest
      → Extends torch (current ++ rest) packed (split_group torch limit rest current size packed)
  unfolding split_group
  split_group-Extends shape dtype limit [] [] size packed h k = Extends-nothing torch packed
  split_group-Extends shape dtype limit [] (p ∷ current) size packed h k =
      subst (λ given. Extends torch given packed (finalize torch (p ∷ current) packed))
        (sym (append-nil (p ∷ current))) (finalize-Extends shape dtype (p ∷ current) packed refl h)
  split_group-Extends shape dtype limit ((i, t) ∷ rest) current size packed h k =
      let grown = current ++ (i, t) ∷ [] in
      let alike =
        Each-append (λ p. Alike torch shape dtype p.1) current ((i, t) ∷ []) h (k.0, tt) in
      let joint = append_assoc current ((i, t) ∷ []) rest in
      subst
        (λ given.
          Extends torch given packed (split_group torch limit ((i, t) ∷ rest) current size packed))
        joint
        (elim (Bool-cases (ltb limit (size + torch.element_size t * torch.numel t))) [
          | inl t' ↦
              rw (split_group, t')
                (Extends-bind torch grown rest packed (finalize torch grown packed)
                  (split_group torch limit rest [] 0)
                  (finalize-Extends shape dtype grown packed (snoc-some current (i, t)) alike)
                  (λ between. split_group-Extends shape dtype limit rest [] 0 between tt k.1))
          | inr t' ↦
              rw (split_group, t')
                (split_group-Extends shape dtype limit rest grown
                  (size + torch.element_size t * torch.numel t) packed alike k.1)
        ])

  pub split_groups-Extends :
      (limit : ℕ) (gs : List (List (ℕ × T))) (packed : Packed T)
      → Each (SomeAlike torch) gs
      → Extends torch (sorted_all gs) packed (split_groups torch limit gs packed)
  unfolding split_groups
  split_groups-Extends limit [] packed h = Extends-nothing torch packed
  split_groups-Extends limit (g ∷ gs) packed h =
      let (shape, dtype, alike) = h.0 in
      Extends-bind torch (sort_on (λ p. p.0) g) (sorted_all gs) packed _ _
        (split_group-Extends shape dtype limit (sort_on (λ p. p.0) g) [] 0 packed tt
          (Each-sort_on (λ p. p.0) (λ p. Alike torch shape dtype p.1) g alike))
        (λ between. split_groups-Extends limit gs between h.1)

-- ===== src/Packing/Roundtrip.antt =====
-- What is packed is rebuilt, in the original order.
use asystem_awex.Prelude.{
  ℕ, zero, suc, ◌+◌, ◌<◌, ◌≤◌, ◌≡◌, refl, sym, ap, ◌∙◌, subst, Bool, false, Option, none, some,
  List, [], ◌∷◌, map, get_elem?, length, length-replicate, is_nil, count_by, replicate, Each, arith,
  inl, ◌==◌, if◌then◌else◌,
}
use asystem_awex.Prelude.Equality.{list_eq, nat_eq, pair_eq}
use asystem_awex.Prelude.Dict.{values, group_by, bucket-group_by}
use asystem_awex.Prelude.Result.{ok}
use asystem_awex.Packing.{
  Torch, Packed, key_of, enumerate, max_of, group_tensors_by_shape_and_dtype,
  reconstruct_tensors_from_groups,
}
use asystem_awex.Packing.Batches.{CatJoins, describe_all, flatten, writes, Extends}
use asystem_awex.Packing.Kept.{sorted_all, split_groups-Extends}
use asystem_awex.Packing.Grouped.{Packable, AtPlace, Complete, Complete-of}
use asystem_awex.Packing.Writes.{rebuild-writes}
use asystem_awex.Packing.Places.{
  map-some_of, max_of-bound, max_of-reached, indices-describe_all, length-writes, writes-AtPlace,
}

some-counted : {T : Type 0} (p : T → Bool) (xs : List T) → 0 < count_by p xs → is_nil xs ≡ false
some-counted p [] h = absurd (omega arith)
some-counted p (x ∷ xs) h = refl

is_nil-map : {A : Type 0} (f : A → ℕ) (xs : List A) → is_nil (map f xs) ≡ is_nil xs
is_nil-map f [] = refl
is_nil-map f (x ∷ xs) = refl

get_elem?-bound :
    {A : Type 0} (xs : List A) (i : ℕ) (x : A) → get_elem? xs i ≡ some x → i < length xs
get_elem?-bound [] i x h = absurd (cc)
get_elem?-bound (y ∷ xs) zero x h = omega arith
get_elem?-bound (y ∷ xs) (suc i) x h = let rest = get_elem?-bound xs i x h in omega arith

at_most :
    {T : Type 0} (m n : ℕ) (pairs : List (ℕ × T))
    → n ≤ m + 1
    → Each (λ p. p.0 < n) pairs
    → Each (λ p. p.0 ≤ m) pairs
at_most m n [] k h = tt
at_most m n (p ∷ pairs) k h = (omega (arith, h.0), at_most m n pairs k h.1)

module _ {T : Type 0} (torch : Torch T) where
  AtPlace-bound :
      (tensors : List T) (pairs : List (ℕ × T))
      → Each (AtPlace torch tensors) pairs
      → Each (λ p. p.0 < length tensors) pairs
  AtPlace-bound tensors [] h = tt
  AtPlace-bound tensors ((i, t) ∷ pairs) h =
      (get_elem?-bound tensors i t h.0, AtPlace-bound tensors pairs h.1)

  -- The rebuilding, from batches that hold every tensor at its place.
  reconstruct-held :
      (u : T) (us : List T) (groups : List (List (ℕ × T))) (packed : Packed T)
      → Complete torch (u ∷ us) groups
      → (e : Extends torch
          (sorted_all groups)
          (record { final_tensor_groups = []; metadata = [] })
          (ok packed))
      → reconstruct_tensors_from_groups torch e.groups (describe_all torch 0 e.batches)
        ≡ ok (map some (u ∷ us))
  unfolding reconstruct_tensors_from_groups
  reconstruct-held u us groups packed c e =
      let tensors = u ∷ us in
      let metadata = describe_all torch 0 e.batches in
      let pairs = flatten torch e.batches in
      let size = length (u ∷ us) in
      let at_place : Each (AtPlace torch tensors) pairs =
        subst (Each (AtPlace torch tensors)) (sym e.all_given) c.at_place in
      let below = AtPlace-bound tensors pairs at_place in
      let occurs : (n : ℕ) → n < length tensors → 0 < count_by (λ p. p.0 == n) pairs = λ n h.
        subst (λ ps. 0 < count_by (λ p. p.0 == n) ps) (sym e.all_given) (c.every_place n h) in
      let last = occurs (length us) (omega arith) in
      let indices = indices-describe_all torch 0 e.batches in
      let some_item : is_nil metadata ≡ false =
        sym (is_nil-map (λ item. item.original_index) metadata)
        ∙ ap is_nil indices
        ∙ is_nil-map (λ p. p.0) pairs
        ∙ some-counted (λ p. p.0 == length us) pairs last in
      let lower = max_of-reached (length us) pairs last in
      let upper =
        max_of-bound (length us) pairs (at_most (length us) size pairs (omega arith) below) in
      let max_index : max_of (map (λ item. item.original_index) metadata) ≡ length us =
        ap max_of indices ∙ omega (arith, lower, upper) in
      let places : List (Option T) = replicate (length us + 1) none in
      let long : length places ≡ size = length-replicate (length us + 1) none ∙ omega arith in
      rw (reconstruct_tensors_from_groups, some_item, if◌then◌else◌, max_index)
        (rebuild-writes torch (group_by (λ item. item.group_index) metadata) 0 e.batches e.groups
            e.held (λ n h. bucket-group_by (λ item. item.group_index) metadata n) places
          ∙ ap ok (
              map-some_of tensors (writes torch pairs places)
                (length-writes torch pairs places ∙ long)
                (λ n t at.
                  writes-AtPlace torch tensors pairs places n t at_place
                    (subst (λ m. Each (λ p. p.0 < m) pairs) (sym long) below) at
                    (inl (occurs n (get_elem?-bound tensors n t at))))))

  -- Tensors that have a dimension and an element each are packed, whatever their shapes and types
  -- and whatever size a group may have, and from the groups and the metadata exactly these tensors
  -- are rebuilt, in their order. Of torch it takes that joining alike tensors keeps their elements.
  pub reconstruct-group_tensors :
      (max_tensor_size : ℕ) (tensors : List T)
      → CatJoins torch
      → Each (Packable torch) tensors
      → (packed : Packed T) × (group_tensors_by_shape_and_dtype torch max_tensor_size tensors
          ≡ ok packed)
        × (reconstruct_tensors_from_groups torch packed.final_tensor_groups packed.metadata
            ≡ ok (map some tensors))
  unfolding group_tensors_by_shape_and_dtype reconstruct_tensors_from_groups
  reconstruct-group_tensors max_tensor_size [] cat_joins h =
      (record { final_tensor_groups = []; metadata = [] }, refl, refl)
  reconstruct-group_tensors max_tensor_size (u ∷ us) cat_joins h =
      let groups = values (group_by (key_of torch) (enumerate 0 (u ∷ us))) in
      let c = Complete-of torch (u ∷ us) h in
      let e =
        split_groups-Extends torch cat_joins max_tensor_size groups
          (record { final_tensor_groups = []; metadata = [] }) c.alike in
      (
        record { final_tensor_groups = e.groups; metadata = describe_all torch 0 e.batches },
        e.outcome_ok,
        reconstruct-held u us groups _ c (record {
          batches = e.batches;
          groups = e.groups;
          outcome_ok = refl;
          held = e.held;
          all_given = e.all_given;
        }),
      )

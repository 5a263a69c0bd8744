-- ===== src/Examples/Packing.antt =====
-- Packing on tensors that are lists of their elements, for which torch's documented behaviour holds.
use asystem_awex.Prelude.{
  ℕ, suc, ◌+◌, ◌-◌, ◌≡◌, refl, sym, ap, ap₂, ◌∙◌, subst, some, List, [], ◌∷◌, ◌++◌, map, length,
  length-append, sum_by, take, drop, Each, arith,
}
use asystem_awex.Prelude.Equality.{Text}
use asystem_awex.Prelude.Result.{Result, ok, err, runtime_error}
use asystem_awex.Packing.{
  Torch, Packed, group_tensors_by_shape_and_dtype, reconstruct_tensors_from_groups,
}
use asystem_awex.Packing.Batches.{Alike, CatJoins}
use asystem_awex.Packing.Roundtrip.{reconstruct-group_tensors}

record Flat : Type 0 where
  shape : List ℕ
  dtype : Text
  elements : List ℕ

abbrev all_elements : List Flat → List ℕ
all_elements [] = []
all_elements (t ∷ ts) = t.elements ++ all_elements ts

abbrev flat_cat : List Flat → Result Flat
flat_cat [] = err runtime_error
flat_cat (t ∷ ts) =
    ok (record { shape = t.shape; dtype = t.dtype; elements = all_elements (t ∷ ts) })

abbrev flat_torch : Torch Flat
flat_torch = record {
  shape = λ t. t.shape;
  dtype = λ t. t.dtype;
  numel = λ t. length t.elements;
  element_size = λ t. 2;
  cat = flat_cat;
  slice = λ t start end shape. ok (record {
    shape = shape;
    dtype = t.dtype;
    elements = take (end - start) (drop start t.elements);
  });
}

length-all_elements :
    (ts : List Flat) → length (all_elements ts) ≡ sum_by (λ t. length t.elements) ts
length-all_elements [] = refl
length-all_elements (t ∷ ts) =
    length-append t.elements (all_elements ts)
    ∙ ap (λ n. length t.elements + n) (length-all_elements ts)

drop_front : (xs ys : List ℕ) (n : ℕ) → drop (length xs + n) (xs ++ ys) ≡ drop n ys
drop_front [] ys n = ap (λ m. drop m ys) (omega arith)
drop_front (x ∷ xs) ys n =
    let shift : suc (length xs) + n ≡ suc (length xs + n) = omega arith in
    rw shift (drop_front xs ys n)

take_front : (xs ys : List ℕ) → take (length xs) (xs ++ ys) ≡ xs
take_front [] ys = refl
take_front (x ∷ xs) ys = ap (◌∷◌ x) (take_front xs ys)

part-elements :
    (earlier : List Flat) (t : Flat) (later : List Flat)
    → take
        (length t.elements)
        (drop (sum_by (λ u. length u.elements) earlier) (all_elements (earlier ++ t ∷ later)))
      ≡ t.elements
part-elements [] t later = take_front t.elements (all_elements later)
part-elements (u ∷ earlier) t later =
    ap (take (length t.elements)) (
      drop_front u.elements (all_elements (earlier ++ t ∷ later))
        (sum_by (λ v. length v.elements) earlier))
    ∙ part-elements earlier t later

same_dtype :
    (shape : List ℕ) (dtype : Text) (earlier : List Flat) (t : Flat) (later : List Flat)
    → Each (Alike flat_torch shape dtype) (earlier ++ t ∷ later)
    → t.dtype ≡ dtype
same_dtype shape dtype [] t later h = h.0.1
same_dtype shape dtype (u ∷ earlier) t later h = same_dtype shape dtype earlier t later h.1

flat_torch-CatJoins : CatJoins flat_torch
flat_torch-CatJoins shape dtype t ts alike = record {
  joined = record { shape = t.shape; dtype = t.dtype; elements = all_elements (t ∷ ts) };
  cat_ok = refl;
  numel = length-all_elements (t ∷ ts);
  part = λ earlier u later e.
      let kind : t.dtype ≡ u.dtype =
        alike.0.1
        ∙ sym (
            same_dtype shape dtype earlier u later
              (subst (Each (Alike flat_torch shape dtype)) e alike)) in
      let offset = sum_by (λ v. length v.elements) earlier in
      let width : offset + length u.elements - offset ≡ length u.elements = omega arith in
      let found : take (offset + length u.elements - offset) (drop offset (all_elements (t ∷ ts)))
          ≡ u.elements =
        ap₂ (λ n xs. take n (drop offset xs)) width (ap all_elements e)
        ∙ part-elements earlier u later in
      ap₂ (λ d xs. ok (record { shape = u.shape; dtype = d; elements = xs })) kind found;
}

abbrev row : List ℕ → Flat
row elements = record { shape = length elements ∷ []; dtype = 102 ∷ []; elements = elements }

-- Two shapes, and groups of at most two rows.
abbrev rows : List Flat
rows = row (1 ∷ 2 ∷ []) ∷ row (3 ∷ []) ∷ row (4 ∷ 5 ∷ []) ∷ row (6 ∷ 7 ∷ []) ∷ []

packing_example :
    (packed : Packed Flat) × (group_tensors_by_shape_and_dtype flat_torch 6 rows ≡ ok packed)
    × (reconstruct_tensors_from_groups flat_torch packed.final_tensor_groups packed.metadata
        ≡ ok (map some rows))
packing_example = reconstruct-group_tensors flat_torch 6 rows flat_torch-CatJoins (
  (omega arith, omega arith),
  ((omega arith, omega arith), ((omega arith, omega arith), ((omega arith, omega arith), tt))),
)

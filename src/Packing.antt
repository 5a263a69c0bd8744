-- ===== src/Packing.antt =====
-- `group_tensors_by_shape_and_dtype` and `reconstruct_tensors_from_groups`, awex/util/tensor_util.py.
-- What torch offers for tensors is a parameter. The log is left out.
pub mod Batches
pub mod Kept
pub mod Grouped
pub mod Places
pub mod Writes
pub mod Roundtrip
use asystem_awex.Prelude.{
  ℕ, zero, suc, ◌+◌, ◌*◌, max, ◌≡◌, Bool, true, false, not, ◌&&◌, Option, none, some, List, [], ◌∷◌,
  ◌++◌, map, set, replicate, length, is_nil, ltb, ◌==◌, if◌then◌else◌,
}
use asystem_awex.Prelude.Equality.{Text, list_eq, nat_eq, pair_eq}
use asystem_awex.Prelude.Dict.{Dict, has, values, group_by, bucket}
use asystem_awex.Prelude.Sort.{sort_on, nat_ord}
use asystem_awex.Prelude.Result.{Result, ok, err, value_error, guard, ◌>>=◌, ◌>>◌}

-- Tensors: their attributes, torch.cat(…, dim=0).clone(), and t.view(-1)[start:end].view(shape).
pub record Torch (T : Type 0) : Type 0 where
  pub shape : T → List ℕ
  pub dtype : T → Text
  pub numel : T → ℕ
  pub element_size : T → ℕ
  pub cat : List T → Result T
  pub slice : T → (start end : ℕ) → (shape : List ℕ) → Result T

-- The metadata of one tensor.
pub record Item : Type 0 where
  pub original_index : ℕ
  pub shape : List ℕ
  pub dtype : Text
  pub group_index : ℕ
  pub offset : ℕ
  pub size : ℕ

-- The two results that the loops extend.
pub record Packed (T : Type 0) : Type 0 where
  pub final_tensor_groups : List T
  pub metadata : List Item

-- max(…)
pub max_of : List ℕ → ℕ
max_of [] = 0
max_of (n ∷ ns) = max n (max_of ns)

module _ {T : Type 0} where
  -- enumerate(tensors)
  abbrev pub enumerate : ℕ → List T → List (ℕ × T)
  enumerate i [] = []
  enumerate i (t ∷ ts) = (i, t) ∷ enumerate (i + 1) ts

module _ {T : Type 0} (torch : Torch T) where
  pub key_of : ℕ × T → List ℕ × Text
  key_of (i, t) = (torch.shape t, torch.dtype t)

  -- The metadata of the tensors of a group.
  pub describe : (group_index offset_elements : ℕ) → List (ℕ × T) → List Item
  describe group_index offset_elements [] = []
  describe group_index offset_elements ((i, t) ∷ current) =
      record {
        original_index = i;
        shape = torch.shape t;
        dtype = torch.dtype t;
        group_index = group_index;
        offset = offset_elements;
        size = torch.numel t;
      }
      ∷ describe group_index (offset_elements + torch.numel t) current

  -- Finalize the current group.
  pub finalize : List (ℕ × T) → Packed T → Result (Packed T)
  unfolding describe
  finalize current packed = do
    concatenated ← torch.cat (map (λ p. p.1) current)
    ok (record {
      final_tensor_groups = packed.final_tensor_groups ++ concatenated ∷ [];
      metadata = packed.metadata ++ describe (length packed.final_tensor_groups) 0 current;
    })

  -- for orig_idx, tensor in group_tensors
  pub split_group :
      (max_tensor_size : ℕ)
      → List (ℕ × T)
      → (current : List (ℕ × T)) (current_size : ℕ) → Packed T
      → Result (Packed T)
  unfolding finalize
  split_group max_tensor_size [] [] current_size packed = ok packed
  split_group max_tensor_size [] (p ∷ current) current_size packed = finalize (p ∷ current) packed
  split_group max_tensor_size ((i, t) ∷ rest) current current_size packed =
      let current_group = current ++ (i, t) ∷ [] in
      let current_group_size = current_size + torch.element_size t * torch.numel t in
      elim (ltb max_tensor_size current_group_size) [
        | true ↦ finalize current_group packed >>= split_group max_tensor_size rest [] 0
        | false ↦ split_group max_tensor_size rest current_group current_group_size packed
      ]

  -- for _, group_tensors in tensor_groups.items()
  pub split_groups : (max_tensor_size : ℕ) → List (List (ℕ × T)) → Packed T → Result (Packed T)
  unfolding split_group
  split_groups max_tensor_size [] packed = ok packed
  split_groups max_tensor_size (group_tensors ∷ groups) packed =
      split_group max_tensor_size (sort_on (λ p. p.0) group_tensors) [] 0 packed
      >>= split_groups max_tensor_size groups

  pub group_tensors_by_shape_and_dtype : (max_tensor_size : ℕ) → List T → Result (Packed T)
  unfolding key_of split_groups
  group_tensors_by_shape_and_dtype max_tensor_size tensors =
      if is_nil tensors
      then ok (record { final_tensor_groups = []; metadata = [] })
      else split_groups max_tensor_size (values (group_by key_of (enumerate 0 tensors)))
          (record { final_tensor_groups = []; metadata = [] })

  -- for item in group_metadata[group_idx]
  pub place_items : T → List Item → List (Option T) → Result (List (Option T))
  place_items group_tensor [] result_tensors = ok result_tensors
  place_items group_tensor (item ∷ items) result_tensors = do
    tensor_data ← torch.slice group_tensor item.offset (item.offset + item.size) item.shape
    place_items group_tensor items (set result_tensors item.original_index (some tensor_data))

  -- for group_idx, group_tensor in enumerate(tensor_groups)
  pub rebuild :
      Dict ℕ (List Item) → (group_idx : ℕ) → List T → List (Option T) → Result (List (Option T))
  unfolding place_items
  rebuild group_metadata group_idx [] result_tensors = ok result_tensors
  rebuild group_metadata group_idx (group_tensor ∷ groups) result_tensors = do
    guard (has group_metadata group_idx && not (torch.numel group_tensor == 0)) value_error
    placed ← place_items group_tensor (bucket group_metadata group_idx) result_tensors
    rebuild group_metadata (group_idx + 1) groups placed

  pub reconstruct_tensors_from_groups : List T → List Item → Result (List (Option T))
  unfolding max_of rebuild
  reconstruct_tensors_from_groups tensor_groups metadata =
      if is_nil metadata
      then ok []
      else (let max_index = max_of (map (λ item. item.original_index) metadata) in
          rebuild (group_by (λ item. item.group_index) metadata) 0 tensor_groups
            (replicate (max_index + 1) none))

-- ===== src/Packing/Batches.antt =====
-- The batches that the packing makes: each is one group tensor and its items.
use asystem_awex.Prelude.{
  ℕ, suc, ◌+◌, ◌<◌, ◌≡◌, refl, sym, ap, ap₂, ◌∙◌, subst, true, false, Option, some, List, [], ◌∷◌,
  ◌++◌, append-nil, append_assoc, map, set, length, length-append, is_nil, sum_by, Each, arith,
}
use asystem_awex.Prelude.Equality.{Text}
use asystem_awex.Prelude.Sort.{nat_ord}
use asystem_awex.Prelude.Result.{Result, ok, ◌>>=◌}
use asystem_awex.Packing.{Torch, Item, Packed, describe, place_items}

module _ {T : Type 0} (torch : Torch T) where
  -- Tensors that torch.cat joins: one shape with a dimension, one type, and elements.
  abbrev pub Alike : List ℕ → Text → T → Type 0
  Alike shape dtype t =
      (torch.shape t ≡ shape) × (torch.dtype t ≡ dtype) × (0 < length shape) × (0 < torch.numel t)

  -- What torch documents of cat and of a slice of a flat view: the tensor that joins alike tensors
  -- has the elements of all, and a slice at the place of one of them is that one again.
  pub record Joined (ts : List T) : Type 0 where
    pub joined : T
    pub cat_ok : torch.cat ts ≡ ok joined
    pub numel : torch.numel joined ≡ sum_by torch.numel ts
    pub part :
        (earlier : List T) (t : T) (later : List T)
        → ts ≡ earlier ++ t ∷ later
        → torch.slice joined
            (sum_by torch.numel earlier)
            (sum_by torch.numel earlier + torch.numel t)
            (torch.shape t)
          ≡ ok t

  abbrev pub CatJoins : Type 0
  CatJoins =
      (shape : List ℕ) (dtype : Text) (t : T) (ts : List T)
      → Each (Alike shape dtype) (t ∷ ts)
      → Joined (t ∷ ts)

  -- The tensors of numbered tensors.
  abbrev pub tensors_of : List (ℕ × T) → List T
  tensors_of = map (λ p. p.1)

  -- What placing a batch writes.
  abbrev pub writes : List (ℕ × T) → List (Option T) → List (Option T)
  writes [] r = r
  writes ((i, t) ∷ batch) r = writes batch (set r i (some t))

  -- A group tensor holds a batch.
  pub record Holds (batch : List (ℕ × T)) (group_tensor : T) : Type 0 where
    pub some_tensor : is_nil batch ≡ false
    pub some_element : 0 < torch.numel group_tensor
    pub read :
        (k : ℕ) (r : List (Option T))
        → place_items torch group_tensor (describe torch k 0 batch) r ≡ ok (writes batch r)

  tensors_of-append :
      (xs ys : List (ℕ × T)) → tensors_of (xs ++ ys) ≡ tensors_of xs ++ tensors_of ys
  tensors_of-append [] ys = refl
  tensors_of-append ((i, t) ∷ xs) ys = ap (◌∷◌ t) (tensors_of-append xs ys)

  numel-snoc :
      (xs : List (ℕ × T)) (i : ℕ) (t : T)
      → sum_by torch.numel (tensors_of (xs ++ (i, t) ∷ []))
        ≡ sum_by torch.numel (tensors_of xs) + torch.numel t
  numel-snoc [] i t = omega arith
  numel-snoc ((j, u) ∷ xs) i t = omega (arith, numel-snoc xs i t)

  place_items-reads :
      (joined : T) (earlier later : List (ℕ × T))
      → ((before : List T) (t : T) (after : List T)
          → tensors_of (earlier ++ later) ≡ before ++ t ∷ after
          → torch.slice joined
              (sum_by torch.numel before)
              (sum_by torch.numel before + torch.numel t)
              (torch.shape t)
            ≡ ok t)
      → (k : ℕ) (r : List (Option T))
      → place_items torch joined
          (describe torch k (sum_by torch.numel (tensors_of earlier)) later)
          r
        ≡ ok (writes later r)
  unfolding place_items describe
  place_items-reads joined earlier [] part k r = refl
  place_items-reads joined earlier ((i, t) ∷ later) part k r =
      let here = tensors_of-append earlier ((i, t) ∷ later) in
      let shifted : (earlier ++ (i, t) ∷ []) ++ later ≡ earlier ++ (i, t) ∷ later =
        append_assoc earlier ((i, t) ∷ []) later in
      rw (part (tensors_of earlier) t (tensors_of later) here, ◌>>=◌)
        (subst
          (λ offset.
            place_items torch joined (describe torch k offset later) (set r i (some t))
            ≡ ok (writes later (set r i (some t))))
          (numel-snoc earlier i t)
          (place_items-reads joined (earlier ++ (i, t) ∷ []) later
            (λ before u after e. part before u after (sym (ap tensors_of shifted) ∙ e)) k
            (set r i (some t))))

  pub Holds-of :
      (current : List (ℕ × T))
      → is_nil current ≡ false
      → (shape : List ℕ) (dtype : Text) → Each (λ p. Alike shape dtype p.1) current
      → (j : Joined (tensors_of current)) → Holds current j.joined
  Holds-of [] some_tensor shape dtype alike j = absurd (cc)
  Holds-of ((i, t) ∷ current) some_tensor shape dtype alike j = record {
    some_tensor = some_tensor;
    some_element = (let enough = alike.0.3 in omega (arith, j.numel));
    read = place_items-reads j.joined [] ((i, t) ∷ current) j.part;
  }

  -- The metadata of successive batches, and the group tensors that hold them.
  abbrev pub describe_all : ℕ → List (List (ℕ × T)) → List Item
  describe_all k [] = []
  describe_all k (batch ∷ batches) = describe torch k 0 batch ++ describe_all (k + 1) batches

  abbrev pub HoldAll : List (List (ℕ × T)) → List T → Type 0
  HoldAll [] [] = Unit
  HoldAll (batch ∷ batches) (g ∷ groups) = Holds batch g × HoldAll batches groups
  HoldAll _ _ = false ≡ true

  abbrev pub flatten : List (List (ℕ × T)) → List (ℕ × T)
  flatten [] = []
  flatten (batch ∷ batches) = batch ++ flatten batches

  -- The results with further batches.
  abbrev pub extend : Packed T → List (List (ℕ × T)) → List T → Packed T
  extend packed batches groups = record {
    final_tensor_groups = packed.final_tensor_groups ++ groups;
    metadata = packed.metadata ++ describe_all (length packed.final_tensor_groups) batches;
  }

  -- A run of the packing extends the results by batches that hold the given tensors in order.
  pub record Extends (given : List (ℕ × T)) (packed : Packed T) (outcome : Result (Packed T))
      : Type 0 where
    pub batches : List (List (ℕ × T))
    pub groups : List T
    pub outcome_ok : outcome ≡ ok (extend packed batches groups)
    pub held : HoldAll batches groups
    pub all_given : flatten batches ≡ given

  describe_all-append :
      (k : ℕ) (xs ys : List (List (ℕ × T)))
      → describe_all k (xs ++ ys) ≡ describe_all k xs ++ describe_all (k + length xs) ys
  describe_all-append k [] ys = ap (λ n. describe_all n ys) (omega arith)
  describe_all-append k (x ∷ xs) ys =
      let shift : k + 1 + length xs ≡ k + suc (length xs) = omega arith in
      ap (λ items. describe torch k 0 x ++ items) (describe_all-append (k + 1) xs ys)
      ∙ sym (append_assoc (describe torch k 0 x) _ _)
      ∙ ap (λ n. (describe torch k 0 x ++ describe_all (k + 1) xs) ++ describe_all n ys) shift

  flatten-append : (xs ys : List (List (ℕ × T))) → flatten (xs ++ ys) ≡ flatten xs ++ flatten ys
  flatten-append [] ys = refl
  flatten-append (x ∷ xs) ys =
      ap (λ r. x ++ r) (flatten-append xs ys) ∙ sym (append_assoc x (flatten xs) (flatten ys))

  HoldAll-length : (xs : List (List (ℕ × T))) (gs : List T) → HoldAll xs gs → length xs ≡ length gs
  HoldAll-length [] [] h = refl
  HoldAll-length (x ∷ xs) (g ∷ gs) h = ap suc (HoldAll-length xs gs h.1)
  HoldAll-length [] (g ∷ gs) h = absurd (cc)
  HoldAll-length (x ∷ xs) [] h = absurd (cc)

  HoldAll-append :
      (xs ys : List (List (ℕ × T))) (gs hs : List T)
      → HoldAll xs gs
      → HoldAll ys hs
      → HoldAll (xs ++ ys) (gs ++ hs)
  HoldAll-append [] ys [] hs h k = k
  HoldAll-append (x ∷ xs) ys (g ∷ gs) hs h k = (h.0, HoldAll-append xs ys gs hs h.1 k)
  HoldAll-append [] ys (g ∷ gs) hs h k = absurd (cc)
  HoldAll-append (x ∷ xs) ys [] hs h k = absurd (cc)

  extend-extend :
      (packed : Packed T) (xs ys : List (List (ℕ × T))) (gs hs : List T)
      → HoldAll xs gs
      → extend (extend packed xs gs) ys hs ≡ extend packed (xs ++ ys) (gs ++ hs)
  extend-extend packed xs ys gs hs h =
      let k = length packed.final_tensor_groups in
      let shift : length (packed.final_tensor_groups ++ gs) ≡ k + length xs =
        omega (arith, length-append packed.final_tensor_groups gs, HoldAll-length xs gs h) in
      ap₂ (λ g m. record { final_tensor_groups = g; metadata = m })
        (append_assoc packed.final_tensor_groups gs hs)
        (ap (λ n. (packed.metadata ++ describe_all k xs) ++ describe_all n ys) shift
          ∙ append_assoc packed.metadata (describe_all k xs) (describe_all (k + length xs) ys)
          ∙ ap (λ m. packed.metadata ++ m) (sym (describe_all-append k xs ys)))

  -- One run after another.
  pub Extends-bind :
      (xs ys : List (ℕ × T)) (packed : Packed T) (first : Result (Packed T))
      (second : Packed T → Result (Packed T))
      → Extends xs packed first
      → ((between : Packed T) → Extends ys between (second between))
      → Extends (xs ++ ys) packed (first >>= second)
  Extends-bind xs ys packed first second e f =
      let s = f (extend packed e.batches e.groups) in
      record {
        batches = e.batches ++ s.batches;
        groups = e.groups ++ s.groups;
        outcome_ok =
            rw (e.outcome_ok, ◌>>=◌)
              (s.outcome_ok
                ∙ ap ok (extend-extend packed e.batches s.batches e.groups s.groups e.held));
        held = HoldAll-append e.batches s.batches e.groups s.groups e.held s.held;
        all_given = flatten-append e.batches s.batches ∙ ap₂ ◌++◌ e.all_given s.all_given;
      }

  pub Extends-nothing : (packed : Packed T) → Extends [] packed (ok packed)
  Extends-nothing packed = record {
    batches = [];
    groups = [];
    outcome_ok =
        ap₂ (λ g m. ok (record { final_tensor_groups = g; metadata = m }))
          (sym (append-nil packed.final_tensor_groups)) (sym (append-nil packed.metadata));
    held = tt;
    all_given = refl;
  }

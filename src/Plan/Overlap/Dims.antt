-- ===== src/Plan/Overlap/Dims.antt =====
-- The overlap of two boxes is their intersection.
use asystem_awex.Prelude.{
  ℕ, zero, suc, max, min, ◌≡◌, refl, sym, ◌∙◌, Bool, true, false, ◌&&◌, Option, none, some, List,
  [], ◌∷◌, length, arith, leb, ltb, Bool-cases, inl, inr, if◌then◌else◌,
}
use asystem_awex.Prelude.Result.{ok, ◌>>=◌, >>=-eq-ok, ok-injective}
use asystem_awex.Plan.Shards.{ShardOffset}
use asystem_awex.Plan.Overlap.{Box, cons_box, overlap_dims}

-- An index of the global tensor lies in a box; an index has one entry for each dimension.
abbrev pub inside : List ℕ → List ℕ → List ℕ → Bool
inside [] [] [] = true
inside (a ∷ starts) (b ∷ ends) (x ∷ index) = leb a x && ltb x b && inside starts ends index
inside _ _ _ = false

abbrev pub inside_box : List ℕ → Option Box → Bool
inside_box index none = false
inside_box index (some (starts, ends)) = inside starts ends index

abbrev pub holds : List ℕ → ShardOffset → Bool
holds index s = inside s.start_offset s.end_offset index

inside-cons_box :
    (a b x : ℕ) (index : List ℕ) (o : Option Box)
    → inside_box (x ∷ index) (cons_box a b o) ≡ (leb a x && ltb x b && inside_box index o)
inside-cons_box a b x index none = ground arith
inside-cons_box a b x index (some box) = refl

-- One dimension: between the larger start and the smaller end, in both ranges.
between_both :
    (a b c d x : ℕ)
    → (leb (max a c) x && ltb x (min b d)) ≡ ((leb a x && ltb x b) && (leb c x && ltb x d))
between_both a b c d x = ground arith

-- Four tuples of one length.
abbrev pub Aligned : List ℕ → List ℕ → List ℕ → List ℕ → Type 0
Aligned [] [] [] [] = Unit
Aligned (a ∷ as') (b ∷ bs) (c ∷ cs) (d ∷ ds) = Aligned as' bs cs ds
Aligned _ _ _ _ = ⊥

pub overlap_dims_total :
    (as' bs cs ds : List ℕ)
    → Aligned as' bs cs ds
    → (o : Option Box) × (overlap_dims as' bs cs ds ≡ ok o)
unfolding overlap_dims
overlap_dims_total [] [] [] [] h = (some ([], []), refl)
overlap_dims_total (a ∷ as') (b ∷ bs) (c ∷ cs) (d ∷ ds) h =
    let (o, e) = overlap_dims_total as' bs cs ds h in
    elim (Bool-cases (leb (min b d) (max a c))) [
      | inl t ↦ (none, rw (t, if◌then◌else◌))
      | inr t ↦ (cons_box (max a c) (min b d) o, rw (t, if◌then◌else◌) (rw (e, ◌>>=◌)))
    ]
overlap_dims_total _ _ _ _ h = absurd h

-- A dimension in which the ranges do not meet.
apart :
    (a b c d : ℕ) (as' bs cs ds index : List ℕ)
    → leb (min b d) (max a c) ≡ true
    → (inside (a ∷ as') (b ∷ bs) index && inside (c ∷ cs) (d ∷ ds) index) ≡ false
apart a b c d as' bs cs ds [] h = refl
apart a b c d as' bs cs ds (x ∷ index) h = ground arith

not-inside-cons_box : (a b : ℕ) (o : Option Box) → inside_box [] (cons_box a b o) ≡ false
not-inside-cons_box a b none = refl
not-inside-cons_box a b (some box) = refl

regroup_dims :
    (a b c d x : ℕ) (u v w : Bool)
    → w ≡ (u && v)
    → (leb (max a c) x && ltb x (min b d) && w)
      ≡ ((leb a x && ltb x b && u) && (leb c x && ltb x d && v))
regroup_dims a b c d x u v w h = ground arith

join_dims :
    (a b c d : ℕ) (as' bs cs ds index : List ℕ) (o : Option Box)
    → ((index' : List ℕ) → inside_box index' o ≡ (inside as' bs index' && inside cs ds index'))
    → inside_box index (cons_box (max a c) (min b d) o)
      ≡ (inside (a ∷ as') (b ∷ bs) index && inside (c ∷ cs) (d ∷ ds) index)
join_dims a b c d as' bs cs ds [] o h = not-inside-cons_box (max a c) (min b d) o
join_dims a b c d as' bs cs ds (x ∷ index) o h =
    inside-cons_box (max a c) (min b d) x index o
    ∙ regroup_dims a b c d x (inside as' bs index) (inside cs ds index) (inside_box index o)
        (h index)

pub inside-overlap_dims :
    (as' bs cs ds : List ℕ) (o : Option Box) (index : List ℕ)
    → Aligned as' bs cs ds
    → overlap_dims as' bs cs ds ≡ ok o
    → inside_box index o ≡ (inside as' bs index && inside cs ds index)
unfolding overlap_dims
inside-overlap_dims [] [] [] [] o [] h e = rw (← ok-injective e)
inside-overlap_dims [] [] [] [] o (x ∷ index) h e = rw (← ok-injective e)
inside-overlap_dims (a ∷ as') (b ∷ bs) (c ∷ cs) (d ∷ ds) o index h e =
    elim (Bool-cases (leb (min b d) (max a c))) [
      | inl t ↦
          rw (← ok-injective (rw (t, if◌then◌else◌) at e))
            (sym (apart a b c d as' bs cs ds index t))
      | inr t ↦
          let (o', e1, e2) = >>=-eq-ok (overlap_dims as' bs cs ds) _ (rw (t, if◌then◌else◌) at e) in
          rw (← ok-injective e2) (
            join_dims a b c d as' bs cs ds index o'
              (λ index'. inside-overlap_dims as' bs cs ds o' index' h e1))
    ]
inside-overlap_dims _ _ _ _ o index h e = absurd h

-- A shard offset with as many starts as ends, in a given number of dimensions.
pub record HasDims (n : ℕ) (s : ShardOffset) : Type 0 where
  pub starts : length s.start_offset ≡ n
  pub ends : length s.end_offset ≡ n

pub Aligned-of_lengths :
    (n : ℕ) (as' bs cs ds : List ℕ)
    → length as' ≡ n
    → length bs ≡ n
    → length cs ≡ n
    → length ds ≡ n
    → Aligned as' bs cs ds
Aligned-of_lengths n [] [] [] [] p q r s = tt
Aligned-of_lengths zero (a ∷ as') bs cs ds p q r s = absurd (omega arith)
Aligned-of_lengths (suc n) (a ∷ as') (b ∷ bs) (c ∷ cs) (d ∷ ds) p q r s =
    Aligned-of_lengths n as' bs cs ds (omega arith) (omega arith) (omega arith) (omega arith)
Aligned-of_lengths n _ _ _ _ p q r s = absurd (omega arith)

-- ===== src/Plan/Overlap/Slices.antt =====
-- The slices of a region are the region, seen from a shard that holds it.
use asystem_awex.Prelude.{
  ℕ, ◌+◌, ◌-◌, max, min, ◌≤◌, ◌<◌, ◌≡◌, refl, Bool, true, false, ◌&&◌, Option, none, some, List, [],
  ◌∷◌, length, arith, leb, ltb, leb→gt, Bool-cases, inl, inr, if◌then◌else◌,
}
use asystem_awex.Prelude.Result.{ok, >>=-eq-ok, ok-injective}
use asystem_awex.Plan.Shards.{Slice, add_each}
use asystem_awex.Plan.Overlap.{Box, cons_box, overlap_dims, sub_each, slices}
use asystem_awex.Plan.Overlap.Dims.{inside, Aligned}

-- The box of starts `ss` and ends `es` is not empty and lies in the box `as'`, `bs`.
abbrev pub BoxFits : (as' bs ss es : List ℕ) → Type 0
BoxFits [] [] [] [] = Unit
BoxFits (a ∷ as') (b ∷ bs) (s ∷ ss) (e ∷ es) = (a ≤ s) × (s < e) × (e ≤ b) × BoxFits as' bs ss es
BoxFits _ _ _ _ = ⊥

abbrev pub FitsBoth : (as' bs cs ds : List ℕ) → Option Box → Type 0
FitsBoth as' bs cs ds none = Unit
FitsBoth as' bs cs ds (some (ss, es)) = BoxFits as' bs ss es × BoxFits cs ds ss es

FitsBoth-cons :
    (a b c d : ℕ) (as' bs cs ds : List ℕ) (o : Option Box)
    → max a c < min b d
    → FitsBoth as' bs cs ds o
    → FitsBoth (a ∷ as') (b ∷ bs) (c ∷ cs) (d ∷ ds) (cons_box (max a c) (min b d) o)
FitsBoth-cons a b c d as' bs cs ds none h f = tt
FitsBoth-cons a b c d as' bs cs ds (some (ss, es)) h f =
    ((omega arith, h, omega arith, f.0), (omega arith, h, omega arith, f.1))

pub overlap_dims-FitsBoth :
    (as' bs cs ds : List ℕ) (o : Option Box)
    → Aligned as' bs cs ds
    → overlap_dims as' bs cs ds ≡ ok o
    → FitsBoth as' bs cs ds o
unfolding overlap_dims
overlap_dims-FitsBoth [] [] [] [] o h e = rw (← ok-injective e) (tt, tt)
overlap_dims-FitsBoth (a ∷ as') (b ∷ bs) (c ∷ cs) (d ∷ ds) o h e =
    elim (Bool-cases (leb (min b d) (max a c))) [
      | inl t ↦ rw (← ok-injective (rw (t, if◌then◌else◌) at e)) tt
      | inr t ↦
          let (o', e1, e2) = >>=-eq-ok (overlap_dims as' bs cs ds) _ (rw (t, if◌then◌else◌) at e) in
          rw (← ok-injective e2) (
            FitsBoth-cons a b c d as' bs cs ds o' (leb→gt _ _ t)
              (overlap_dims-FitsBoth as' bs cs ds o' h e1))
    ]
overlap_dims-FitsBoth _ _ _ _ o h e = absurd h

-- An index of the global tensor lies in the slices of a shard that starts at `offset`.
abbrev pub places : List ℕ → List Slice → List ℕ → Bool
places [] [] [] = true
places (o ∷ offset) ((a, b) ∷ ss) (x ∷ index) =
    leb (o + a) x && ltb x (o + b) && places offset ss index
places _ _ _ = false

one_dim :
    (a b s e x : ℕ) (u v : Bool)
    → a ≤ s
    → s < e
    → u ≡ v
    → (leb (a + (s - a)) x && ltb x (a + ((s - a) + (e - s))) && u) ≡ (leb s x && ltb x e && v)
one_dim a b s e x u v h k p = ground arith

-- Seen from a shard that holds the box, the slices are the box.
pub places-slices :
    (as' bs ss es index : List ℕ)
    → BoxFits as' bs ss es
    → places as' (slices (sub_each ss as') (sub_each es ss)) index ≡ inside ss es index
places-slices [] [] [] [] [] h = refl
places-slices [] [] [] [] (x ∷ index) h = refl
places-slices (a ∷ as') (b ∷ bs) (s ∷ ss) (e ∷ es) [] h = refl
places-slices (a ∷ as') (b ∷ bs) (s ∷ ss) (e ∷ es) (x ∷ index) h =
    one_dim a b s e x _ _ h.0 h.1 (places-slices as' bs ss es index h.3)
places-slices _ _ _ _ index h = absurd h

-- Every slice is not empty and ends within the shape.
abbrev pub SlicesFit : List Slice → List ℕ → Type 0
SlicesFit [] [] = Unit
SlicesFit ((a, b) ∷ ss) (n ∷ shape) = (a < b) × (b ≤ n) × SlicesFit ss shape
SlicesFit _ _ = ⊥

pub slices-SlicesFit :
    (as' shape ss es : List ℕ)
    → BoxFits as' (add_each as' shape) ss es
    → length shape ≡ length as'
    → SlicesFit (slices (sub_each ss as') (sub_each es ss)) shape
slices-SlicesFit [] [] [] [] h k = tt
slices-SlicesFit (a ∷ as') (n ∷ shape) (s ∷ ss) (e ∷ es) h k =
    (omega arith, omega arith, slices-SlicesFit as' shape ss es h.3 (omega arith))
slices-SlicesFit _ _ _ _ h k = absurd (ground arith)

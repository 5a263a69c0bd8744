-- ===== src/Resolver/Offsets/Cover.antt =====
-- The shards of a replica, once placed, cover the parameter without overlap.
use asystem_awex.Prelude.{
  ℕ, zero, suc, ◌+◌, ◌<◌, ◌≡◌, refl, sym, ◌∙◌, ap, Bool, true, false, ◌&&◌, List, [], ◌∷◌, length,
  replicate, set, arith, Each, count_by, sum_by, leb, ltb, if◌then◌else◌,
}
use asystem_awex.Prelude.Result.{ok, ◌>>=◌}
use asystem_awex.Resolver.{Tagged}
use asystem_awex.Plan.Shards.{add_each}
use asystem_awex.Plan.Overlap.Dims.{inside}
use asystem_awex.Plan.Build.Counted.{stores}
use asystem_awex.Resolver.Offsets.{advance, place_from, place_replica}

-- The offset and the shape that differ from (0, …, 0) and from `base` in one dimension only.
abbrev offset_at : (base : List ℕ) (dim p : ℕ) → List ℕ
offset_at base dim p = set (replicate (length base) 0) dim p

-- The index, without the sharding dimension, lies in the base shape.
across : (base : List ℕ) (dim : ℕ) (index : List ℕ) → Bool
across [] dim [] = true
across [] dim (x ∷ index) = false
across (n ∷ base) dim [] = false
across (n ∷ base) zero (x ∷ index) = inside (replicate (length base) 0) base index
across (n ∷ base) (suc dim) (x ∷ index) = ltb x n && across base dim index

unfoldable pub along : (dim : ℕ) (index : List ℕ) → ℕ
along dim [] = 0
along zero (x ∷ index) = x
along (suc dim) (x ∷ index) = along dim index

add_zeros : (base : List ℕ) → add_each (replicate (length base) 0) base ≡ base
add_zeros [] = refl
add_zeros (n ∷ base) = ground (arith, add_zeros base)

inside-offset_at :
    (base : List ℕ) (dim p w : ℕ) (index : List ℕ)
    → dim < length base
    → inside (offset_at base dim p) (add_each (offset_at base dim p) (set base dim w)) index
      ≡ (across base dim index && (leb p (along dim index) && ltb (along dim index) (p + w)))
unfolding across along
inside-offset_at [] dim p w index h = absurd (omega arith)
inside-offset_at (n ∷ base) zero p w [] h = refl
inside-offset_at (n ∷ base) zero p w (x ∷ index) h = ground (arith, add_zeros base)
inside-offset_at (n ∷ base) (suc dim) p w [] h = refl
inside-offset_at (n ∷ base) (suc dim) p w (x ∷ index) h =
    ground (arith, inside-offset_at base dim p w index (omega arith))

advance-offset_at :
    (base : List ℕ) (dim p w : ℕ)
    → dim < length base
    → advance dim (offset_at base dim p) (set base dim w) ≡ ok (offset_at base dim (p + w))
unfolding advance
advance-offset_at [] dim p w h = absurd (omega arith)
advance-offset_at (n ∷ base) zero p w h = refl
advance-offset_at (n ∷ base) (suc dim) p w h =
    rw (advance-offset_at base dim p w (omega arith), ◌>>=◌) refl

along-set : (base : List ℕ) (dim w : ℕ) → dim < length base → along dim (set base dim w) ≡ w
unfolding along
along-set [] dim w h = absurd (omega arith)
along-set (n ∷ base) zero w h = refl
along-set (n ∷ base) (suc dim) w h = along-set base dim w (omega arith)

-- The shard has the base shape but for its width in the sharding dimension.
pub record Agrees (base : List ℕ) (dim : ℕ) (s : Tagged) : Type 0 where
  pub width : ℕ
  pub shape : s.1.shape ≡ set base dim width

abbrev pub total_width : ℕ → List Tagged → ℕ
total_width dim shards = sum_by (λ s. along dim s.1.shape) shards

abbrev pub stored_in : List ℕ → List Tagged → ℕ
stored_in index placed = count_by (λ s. stores index s.1) placed

-- One more range of numbers behind a range.
one_range :
    (here : Bool) (p w t x : ℕ)
    → (if here && (leb p x && ltb x (p + w)) then 1 else 0)
        + (if here && (leb (p + w) x && ltb x (p + w + t)) then 1 else 0)
      ≡ (if here && (leb p x && ltb x (p + (w + t))) then 1 else 0)
one_range here p w t x = ground arith

cover_one :
    (stored here : Bool) (p w t x wide rest : ℕ)
    → wide ≡ w
    → stored ≡ (here && (leb p x && ltb x (p + w)))
    → rest ≡ (if here && (leb (p + w) x && ltb x (p + w + t)) then 1 else 0)
    → (if stored then suc rest else rest)
      ≡ (if here && (leb p x && ltb x (p + (wide + t))) then 1 else 0)
cover_one stored here p w t x wide rest e f g = ground (arith, one_range here p w t x)

record Placed (base : List ℕ) (dim p : ℕ) (shards : List Tagged) : Type 0 where
  placed : List Tagged
  made : place_from dim (offset_at base dim p) shards ≡ ok placed
  covered :
      (index : List ℕ)
      → stored_in index placed ≡ (
          if across base dim index
            && (leb p (along dim index) && ltb (along dim index) (p + total_width dim shards))
          then 1
          else 0)

place_from-Placed :
    (base : List ℕ) (dim p : ℕ) (shards : List Tagged)
    → dim < length base
    → Each (Agrees base dim) shards
    → Placed base dim p shards
unfolding place_from
place_from-Placed base dim p [] h agree = record {
  placed = [];
  made = refl;
  covered = λ index. ground arith;
}
place_from-Placed base dim p ((id, shard) ∷ shards) h agree =
    let w = agree.0.width in
    let rest = place_from-Placed base dim (p + w) shards h agree.1 in
    let wide : along dim shard.shape ≡ w = ap (along dim) agree.0.shape ∙ along-set base dim w h in
    let moved : advance dim (offset_at base dim p) shard.shape ≡ ok (offset_at base dim (p + w)) =
      ap (advance dim (offset_at base dim p)) agree.0.shape ∙ advance-offset_at base dim p w h in
    record {
      placed = (id, record shard { global_offset = offset_at base dim p }) ∷ rest.placed;
      made = rw (moved, ◌>>=◌) (rw (rest.made, ◌>>=◌) refl);
      covered = λ index.
          cover_one (stores index (record shard { global_offset = offset_at base dim p }))
            (across base dim index) p w (total_width dim shards) (along dim index)
            (along dim shard.shape) _ wide
            (ap (λ sh. inside (offset_at base dim p) (add_each (offset_at base dim p) sh) index)
                agree.0.shape
              ∙ inside-offset_at base dim p w index h)
            (rest.covered index);
    }

start_at_zero : (base : List ℕ) (dim : ℕ) → offset_at base dim 0 ≡ replicate (length base) 0
start_at_zero [] dim = refl
start_at_zero (n ∷ base) zero = refl
start_at_zero (n ∷ base) (suc dim) = ap (◌∷◌ 0) (start_at_zero base dim)

inside_whole :
    (base : List ℕ) (dim t : ℕ) (index : List ℕ)
    → dim < length base
    → inside (replicate (length base) 0) (set base dim t) index
      ≡ (across base dim index && (leb 0 (along dim index) && ltb (along dim index) (0 + t)))
unfolding across along
inside_whole [] dim t index h = absurd (omega arith)
inside_whole (n ∷ base) zero t [] h = refl
inside_whole (n ∷ base) zero t (x ∷ index) h = ground arith
inside_whole (n ∷ base) (suc dim) t [] h = refl
inside_whole (n ∷ base) (suc dim) t (x ∷ index) h =
    ground (arith, inside_whole base dim t index (omega arith))

-- For a replica whose shards have one base shape but for their width in the sharding dimension: the
-- offsets are made, and an index is stored by exactly one shard of the replica where it lies in the
-- base shape with the sum of the widths in that dimension, and by none elsewhere.
pub place_replica-covers :
    (base : List ℕ) (dim : ℕ) (shards : List Tagged)
    → dim < length base
    → Each (Agrees base dim) shards
    → (placed : List Tagged) × (place_replica dim (length base) shards ≡ ok placed)
      × ((index : List ℕ)
          → stored_in index placed ≡ (
              if inside (replicate (length base) 0) (set base dim (total_width dim shards)) index
              then 1
              else 0))
unfolding place_replica
place_replica-covers base dim shards h agree =
    let all = place_from-Placed base dim 0 shards h agree in
    (
      all.placed,
      ap (λ start. place_from dim start shards) (sym (start_at_zero base dim)) ∙ all.made,
      λ index.
          all.covered index
          ∙ ap (λ here. if here then 1 else 0)
              (sym (inside_whole base dim (total_width dim shards) index h)),
    )

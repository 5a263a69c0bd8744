-- ===== src/Transport/Chunks/Pieces.antt =====
-- The chunks of a list, and of the operations of every peer.
use asystem_awex.Prelude.{
  ℕ, zero, suc, ◌+◌, ◌-◌, ◌*◌, ◌/◌, ◌≤◌, ◌<◌, ◌≡◌, refl, sym, subst, ap, ◌∙◌, inl, inr, Bool, true,
  false, not, ◌&&◌, List, [], ◌∷◌, ◌++◌, length, take, drop, is_nil, arith, ◌==◌, Bool-cases,
  ==_iff, if◌then◌else◌,
}
use native.Mathlib.Nat.{lt-div-mul-add, mul-le-mul_right}
use asystem_awex.Prelude.Equality.{nat_eq}
use asystem_awex.Prelude.Dict.{Dict, bucket, has}
use asystem_awex.Transport.Chunks.{max_len, chunk, chunk_ops}

suc-more : (a b : ℕ) → suc (a + b) ≡ suc a + b
suc-more a b = omega arith

module _ {ℓ} {A : Type ℓ} where
  take-nil : (n : ℕ) → take {A = A} n [] ≡ []
  take-nil zero = refl
  take-nil (suc n) = refl

  drop-nil : (n : ℕ) → drop {A = A} n [] ≡ []
  drop-nil zero = refl
  drop-nil (suc n) = refl

  take_more : (a b : ℕ) (xs : List A) → take a xs ++ take b (drop a xs) ≡ take (a + b) xs
  take_more zero b xs = ap (λ n. take n xs) (omega arith)
  take_more (suc a) b [] = take-nil b ∙ sym (take-nil (suc a + b))
  take_more (suc a) b (x ∷ xs) =
      ap (◌∷◌ x) (take_more a b xs) ∙ ap (λ n. take n (x ∷ xs)) (suc-more a b)

  drop_more : (a b : ℕ) (xs : List A) → drop b (drop a xs) ≡ drop (a + b) xs
  drop_more zero b xs = ap (λ n. drop n xs) (omega arith)
  drop_more (suc a) b [] = drop-nil b ∙ sym (drop-nil (suc a + b))
  drop_more (suc a) b (x ∷ xs) = drop_more a b xs ∙ ap (λ n. drop n (x ∷ xs)) (suc-more a b)

  pub take_all : (n : ℕ) (xs : List A) → length xs ≤ n → take n xs ≡ xs
  take_all zero [] h = refl
  take_all zero (x ∷ xs) h = absurd (omega arith)
  take_all (suc n) [] h = refl
  take_all (suc n) (x ∷ xs) h = ap (◌∷◌ x) (take_all n xs (omega arith))

  -- A chunk and what comes after it.
  pub next_chunk :
      (step idx left : ℕ) (ops : List A)
      → chunk step idx ops ++ take (left * step) (drop ((idx + 1) * step) ops)
        ≡ take (suc left * step) (drop (idx * step) ops)
  unfolding chunk
  next_chunk step idx left ops =
      ap (λ rest. take step (drop (idx * step) ops) ++ take (left * step) rest)
        (ap (λ n. drop n ops) (omega arith) ∙ sym (drop_more (idx * step) step ops))
      ∙ take_more step (left * step) (drop (idx * step) ops)
      ∙ ap (λ n. take n (drop (idx * step) ops)) (omega arith)

  -- The keys of a Python dict differ.
  unfoldable pub distinct : Dict ℕ (List A) → Bool
  distinct [] = true
  distinct ((peer, ops) ∷ d) = not (has d peer) && distinct d

  bucket_of_absent : (d : Dict ℕ (List A)) (j : ℕ) → has d j ≡ false → bucket d j ≡ []
  bucket_of_absent [] j h = refl
  bucket_of_absent ((p, ops) ∷ d) j h = ground (arith, bucket_of_absent d j)

  chunk-nil : (step idx : ℕ) → chunk {A = A} step idx [] ≡ []
  unfolding chunk
  chunk-nil step idx = ap (take step) (drop-nil (idx * step)) ∙ take-nil step

  either_chunk :
      (step idx : ℕ) (here : Bool) (ops other rest : List A)
      → rest ≡ chunk step idx other
      → (if here then chunk step idx ops else rest) ≡ chunk step idx (if here then ops else other)
  either_chunk step idx true ops other rest h = refl
  either_chunk step idx false ops other rest h = h

  skip_empty :
      (sub : List A) (rest : Dict ℕ (List A)) (p j : ℕ)
      → ((p == j) ≡ true → bucket rest j ≡ [])
      → bucket (if is_nil sub then rest else (p, sub) ∷ rest) j
        ≡ (if p == j then sub else bucket rest j)
  skip_empty [] rest p j h = elim (Bool-cases (p == j)) [
    | inl t ↦ h t ∙ sym (rw (t, if◌then◌else◌) refl)
    | inr t ↦ sym (rw (t, if◌then◌else◌) refl)
  ]
  skip_empty (x ∷ sub) rest p j h = refl

  pub bucket-chunk_ops :
      (step idx : ℕ) (d : Dict ℕ (List A)) (j : ℕ)
      → distinct d ≡ true
      → bucket (chunk_ops step idx d) j ≡ chunk step idx (bucket d j)
  unfolding chunk_ops distinct
  bucket-chunk_ops step idx [] j h = sym (chunk-nil step idx)
  bucket-chunk_ops step idx ((p, ops) ∷ d) j h =
      let fresh : has d p ≡ false = ground (arith, h) in
      let rest : bucket (chunk_ops step idx d) j ≡ chunk step idx (bucket d j) =
        bucket-chunk_ops step idx d j (ground (arith, h)) in
      let absent : (p == j) ≡ true → bucket (chunk_ops step idx d) j ≡ [] = λ e.
        rest
        ∙ ap (chunk step idx)
            (bucket_of_absent d j (subst (λ x. has d x ≡ false) ((==_iff p j).0 e) fresh))
        ∙ chunk-nil step idx in
      skip_empty (chunk step idx ops) (chunk_ops step idx d) p j absent
      ∙ either_chunk step idx (p == j) ops (bucket d j) _ rest

  pub max_len-bucket : (d : Dict ℕ (List A)) (j : ℕ) → length (bucket d j) ≤ max_len d
  unfolding max_len
  max_len-bucket [] j = omega arith
  max_len-bucket ((p, ops) ∷ d) j = ground (arith, max_len-bucket d j)

-- A number of chunks that is counted leaves nothing over.
pub enough_chunks : (step m n : ℕ) → 0 < step → (m + step - 1) / step ≤ n → m ≤ n * step
enough_chunks step m n h few =
    omega (arith, lt-div-mul-add {a = m + step - 1} {b = step} h, mul-le-mul_right step few)

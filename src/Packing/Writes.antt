-- ===== src/Packing/Writes.antt =====
-- Rebuilding the tensors from batches writes what the batches hold.
use asystem_awex.Prelude.{
  ℕ, ◌+◌, ◌<◌, ◌≤◌, ◌≡◌, refl, sym, ap, ap₂, ◌∙◌, true, false, Option, some, List, [], ◌∷◌, ◌++◌,
  append-nil, set, is_nil, select, select-append, arith, ◌==◌, ==_refl, if◌then◌else◌,
}
use asystem_awex.Prelude.Equality.{nat_eq}
use asystem_awex.Prelude.Dict.{Dict, has, bucket}
use asystem_awex.Prelude.Result.{ok}
use asystem_awex.Packing.{Torch, Item, describe, rebuild}
use asystem_awex.Packing.Batches.{HoldAll, describe_all, flatten, writes}

bucket-has :
    {V : Type 0} (d : Dict ℕ (List V)) (k : ℕ) → is_nil (bucket d k) ≡ false → has d k ≡ true
bucket-has [] k h = cc
bucket-has ((j, xs) ∷ d) k h = ground (arith, bucket-has d k)

positive-test : (n : ℕ) → 0 < n → (n == 0) ≡ false
positive-test n h = ground arith

less-test : (k n : ℕ) → k + 1 ≤ n → (k == n) ≡ false
less-test k n h = ground arith

module _ {T : Type 0} (torch : Torch T) where
  -- The items of a batch have its number.
  select-describe :
      (k n offset : ℕ) (batch : List (ℕ × T))
      → select (λ item. item.group_index == n) (describe torch k offset batch)
        ≡ (if k == n then describe torch k offset batch else [])
  unfolding describe
  select-describe k n offset [] = ground arith
  select-describe k n offset ((i, t) ∷ batch) =
      ground (arith, select-describe k n (offset + torch.numel t) batch)

  select-later :
      (k n : ℕ) (batches : List (List (ℕ × T)))
      → n < k
      → select (λ item. item.group_index == n) (describe_all torch k batches) ≡ []
  select-later k n [] h = refl
  select-later k n (batch ∷ batches) h =
      let other : (k == n) ≡ false = ground arith in
      let mine : select (λ item. item.group_index == n) (describe torch k 0 batch) ≡ [] =
        select-describe k n 0 batch ∙ ap (λ b. if b then describe torch k 0 batch else []) other in
      select-append (λ item. item.group_index == n) (describe torch k 0 batch)
        (describe_all torch (k + 1) batches)
      ∙ ap₂ ◌++◌ mine (select-later (k + 1) n batches (omega arith))

  writes-append :
      (xs ys : List (ℕ × T)) (r : List (Option T))
      → writes torch (xs ++ ys) r ≡ writes torch ys (writes torch xs r)
  writes-append [] ys r = refl
  writes-append ((i, t) ∷ xs) ys r = writes-append xs ys (set r i (some t))

  describe-some :
      (k : ℕ) (batch : List (ℕ × T))
      → is_nil batch ≡ false
      → is_nil (describe torch k 0 batch) ≡ false
  unfolding describe
  describe-some k [] h = h
  describe-some k (p ∷ batch) h = refl

  -- The loop from the k-th group on, where the dictionary has the items of the k-th batch and of the
  -- later ones.
  pub rebuild-writes :
      (gm : Dict ℕ (List Item)) (k : ℕ) (batches : List (List (ℕ × T))) (groups : List T)
      → HoldAll torch batches groups
      → ((n : ℕ)
          → k ≤ n
          → bucket gm n ≡ select (λ item. item.group_index == n) (describe_all torch k batches))
      → (r : List (Option T))
      → rebuild torch gm k groups r ≡ ok (writes torch (flatten torch batches) r)
  unfolding rebuild
  rebuild-writes gm k [] [] h same r = refl
  rebuild-writes gm k (batch ∷ batches) (g ∷ groups) h same r =
      let p = λ (n : ℕ).
        select-append (λ item. item.group_index == n) (describe torch k 0 batch)
          (describe_all torch (k + 1) batches) in
      let mine : select (λ item. item.group_index == k) (describe torch k 0 batch)
          ≡ describe torch k 0 batch =
        select-describe k k 0 batch
        ∙ ap (λ b. if b then describe torch k 0 batch else []) (==_refl k) in
      let here : bucket gm k ≡ describe torch k 0 batch =
        same k (omega arith)
        ∙ p k
        ∙ ap₂ ◌++◌ mine (select-later (k + 1) k batches (omega arith))
        ∙ append-nil (describe torch k 0 batch) in
      let there : has gm k ≡ true =
        bucket-has gm k (ap is_nil here ∙ describe-some k batch h.0.some_tensor) in
      let full : (torch.numel g == 0) ≡ false = positive-test (torch.numel g) h.0.some_element in
      rw (there, full, here, h.0.read k r)
        (rebuild-writes gm (k + 1) batches groups h.1
            (λ n later.
              let other : (k == n) ≡ false = less-test k n later in
              let not_mine : select (λ item. item.group_index == n) (describe torch k 0 batch)
                  ≡ [] =
                select-describe k n 0 batch
                ∙ ap (λ b. if b then describe torch k 0 batch else []) other in
              same n (omega arith)
              ∙ p n
              ∙ ap
                  (λ items.
                    items
                    ++ select (λ item. item.group_index == n) (describe_all torch (k + 1) batches))
                  not_mine)
            (writes torch batch r)
          ∙ ap ok (sym (writes-append batch (flatten torch batches) r)))
  rebuild-writes gm k [] (g ∷ groups) h same r = absurd (cc)
  rebuild-writes gm k (batch ∷ batches) [] h same r = absurd (cc)

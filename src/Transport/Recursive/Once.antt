-- ===== src/Transport/Recursive/Once.antt =====
-- What a rank exchanges with a peer in all rounds together, when the world size is a power of two.
use asystem_awex.Prelude.{
  ℕ, zero, suc, ◌+◌, ◌-◌, ◌*◌, ◌/◌, ◌^◌, ◌≤◌, ◌<◌, ◌≡◌, refl, ◌∙◌, ap, Bool, true, false, not, ◌&&◌,
  ◌||◌, List, [], ◌∷◌, ◌++◌, append-nil, append_assoc, ap₂, range, arith, ltb, leb, ◌==◌, subst,
  ==_iff, ==_refl, if◌then◌else◌, ge→ltb,
}
use asystem_awex.Prelude.Equality.{nat_eq}
use asystem_awex.Prelude.Dict.{Dict, bucket}
use asystem_awex.Transport.Recursive.{
  Batch, Partition, partition_of, other_half, log2_on, int_log2, execute_ops_concurrent,
  execute_round, execute_rounds, execute_recursive_partition_stream_transfer,
}
use asystem_awex.Transport.Recursive.Halves.{in_other_half, half_or_block}
use native.Mathlib.Nat.{div-eq_of_lt, mul-div_right, pow-suc, one-le-pow}

abbrev pub same_way : Bool → Bool → Bool
same_way true s = s
same_way false s = not s

module _ {ℓ} {A : Type ℓ} where
  -- The operations of the batches of one direction and one peer, in their order.
  abbrev pub exchanged : (sends : Bool) (peer : ℕ) → List (Batch A) → List A
  exchanged sends peer [] = []
  exchanged sends peer (b ∷ batches) =
      if same_way b.sends sends && (b.peer == peer)
      then b.ops ++ exchanged sends peer batches
      else exchanged sends peer batches

  pub exchanged-append :
      (sends : Bool) (peer : ℕ) (xs ys : List (Batch A))
      → exchanged sends peer (xs ++ ys) ≡ exchanged sends peer xs ++ exchanged sends peer ys
  exchanged-append sends peer [] ys = refl
  exchanged-append sends peer (b ∷ xs) ys = ground (
    arith,
    exchanged-append sends peer xs ys,
    append_assoc b.ops (exchanged sends peer xs) (exchanged sends peer ys),
  )

  -- A phase reaches the peers of its range.
  exchanged-ops :
      (way sends : Bool) (d : Dict ℕ (List A)) (peer start n : ℕ)
      → exchanged sends peer (execute_ops_concurrent way d (range start n)) ≡ (
          if same_way way sends && (leb start peer && ltb peer (start + n))
          then bucket d peer
          else [])
  unfolding execute_ops_concurrent
  exchanged-ops way sends d peer start zero = ground arith
  exchanged-ops way sends d peer start (suc n) =
      ground (arith, exchanged-ops way sends d peer (start + 1) n, append-nil (bucket d start))

  abbrev table : Bool → Dict ℕ (List A) → Dict ℕ (List A) → Dict ℕ (List A)
  table sends send recv = if sends then send else recv

  send_first :
      (sends inside : Bool) (send recv : Dict ℕ (List A)) (peer : ℕ)
      → (if sends && inside then bucket send peer else [])
          ++ (if not sends && inside then bucket recv peer else [])
        ≡ (if inside then bucket (table sends send recv) peer else [])
  send_first true true send recv peer = append-nil (bucket send peer)
  send_first true false send recv peer = refl
  send_first false inside send recv peer = refl

  recv_first :
      (sends inside : Bool) (send recv : Dict ℕ (List A)) (peer : ℕ)
      → (if not sends && inside then bucket recv peer else [])
          ++ (if sends && inside then bucket send peer else [])
        ≡ (if inside then bucket (table sends send recv) peer else [])
  recv_first true inside send recv peer = refl
  recv_first false true send recv peer = append-nil (bucket recv peer)
  recv_first false false send recv peer = refl

  exchanged-phases :
      (sends : Bool) (send recv : Dict ℕ (List A)) (peer start n : ℕ) (first : Bool)
      → exchanged sends peer (
          if first
          then execute_ops_concurrent true send (range start n)
            ++ execute_ops_concurrent false recv (range start n)
          else execute_ops_concurrent false recv (range start n)
            ++ execute_ops_concurrent true send (range start n))
        ≡ (if leb start peer && ltb peer (start + n)
            then bucket (table sends send recv) peer
            else [])
  exchanged-phases sends send recv peer start n true =
      exchanged-append sends peer _ _
      ∙ ap₂ ◌++◌ (exchanged-ops true sends send peer start n)
          (exchanged-ops false sends recv peer start n)
      ∙ send_first sends _ send recv peer
  exchanged-phases sends send recv peer start n false =
      exchanged-append sends peer _ _
      ∙ ap₂ ◌++◌ (exchanged-ops false sends recv peer start n)
          (exchanged-ops true sends send peer start n)
      ∙ recv_first sends _ send recv peer

  exchanged-round :
      (sends : Bool) (send recv : Dict ℕ (List A)) (peer : ℕ) (p : Partition)
      → p.other_half_start ≤ p.other_half_end
      → exchanged sends peer (execute_round send recv p)
        ≡ (if in_other_half p peer then bucket (table sends send recv) peer else [])
  unfolding execute_round other_half
  exchanged-round sends send recv peer p h =
      let whole : p.other_half_start + (p.other_half_end - p.other_half_start) ≡ p.other_half_end =
        omega arith in
      exchanged-phases sends send recv peer _ _ p.in_first_half
      ∙ ap
          (λ stop.
            if leb p.other_half_start peer && ltb peer stop
            then bucket (table sends send recv) peer
            else [])
          whole

-- The half of a partition is a range.
partition_fits :
    (i size : ℕ) → (partition_of i size).other_half_start ≤ (partition_of i size).other_half_end
unfolding partition_of
partition_fits i size = ground arith

log2_on-pow : (fuel k : ℕ) → k ≤ fuel → log2_on fuel (2 ^ k) ≡ k
unfolding log2_on
log2_on-pow zero zero h = refl
log2_on-pow zero (suc k) h = absurd (omega arith)
log2_on-pow (suc fuel) zero h = refl
log2_on-pow (suc fuel) (suc k) h =
    let twice : 2 ^ suc k ≡ 2 ^ k * 2 = pow-suc 2 k in
    let half : 2 ^ suc k / 2 ≡ 2 ^ k = omega (arith, twice) in
    let large : ltb (2 ^ suc k) 2 ≡ false =
      ge→ltb (2 ^ suc k) 2 (omega (arith, twice, one-le-pow k 2 (omega arith))) in
    rw (large, if◌then◌else◌) (rw (half) (omega (arith, log2_on-pow fuel k (omega arith))))

below_pow : (k : ℕ) → k ≤ 2 ^ k
below_pow zero = omega arith
below_pow (suc k) = omega (arith, below_pow k, one-le-pow k 2 (omega arith), pow-suc 2 k)

join_rounds {ℓ} :
    {A : Type ℓ} (meets same whole equal : Bool) (ops : List A)
    → whole ≡ (meets || same)
    → (meets && same) ≡ false
    → (equal ≡ true → same ≡ true)
    → (if meets then ops else []) ++ (if same && not equal then ops else [])
      ≡ (if whole && not equal then ops else [])
join_rounds true true whole equal ops e h k = cc
join_rounds true false whole true ops e h k = let no = k refl in cc
join_rounds true false whole false ops e h k = rw e (append-nil ops)
join_rounds false same whole equal ops e h k = rw e refl

next : {world : ℕ} (r left : ℕ) → world ≡ 2 ^ r * 2 ^ suc left → world ≡ 2 ^ (r + 1) * 2 ^ left
next r left e =
    let one_more : 2 ^ (r + 1) ≡ 2 ^ r * 2 = ap (λ x. 2 ^ x) (omega arith) ∙ pow-suc 2 r in
    omega (arith, e ∙ ap (λ x. 2 ^ r * x) (pow-suc 2 left), ap (λ x. x * 2 ^ left) one_more)

same_block : (P i j : ℕ) → (i == j) ≡ true → (i / P == j / P) ≡ true
same_block P i j h = subst (λ x. (i / P == x / P) ≡ true) ((==_iff i j).0 h) (==_refl (i / P))

module _ {ℓ} {A : Type ℓ} (sends : Bool) (send recv : Dict ℕ (List A)) (i j : ℕ) (world : ℕ) where
  exchanged-rounds :
      (round_idx left : ℕ)
      → world ≡ 2 ^ round_idx * 2 ^ left
      → exchanged sends j (execute_rounds world i send recv round_idx left) ≡ (
          if (i / 2 ^ left == j / 2 ^ left) && not (i == j)
          then bucket (table sends send recv) j
          else [])
  unfolding execute_rounds
  exchanged-rounds round_idx zero e = ground arith
  exchanged-rounds round_idx (suc left) e =
      let twice : 2 ^ suc left ≡ 2 ^ left * 2 = pow-suc 2 left in
      let size : world / 2 ^ round_idx ≡ 2 ^ left * 2 =
        ap (λ w. w / 2 ^ round_idx) e
        ∙ mul-div_right (2 ^ suc left) (one-le-pow round_idx 2 (omega arith))
        ∙ twice in
      let (cover, never_both) = half_or_block (2 ^ left) i j (one-le-pow left 2 (omega arith)) in
      rw (size, twice)
        (exchanged-append sends j _ _
          ∙ ap₂ ◌++◌
              (exchanged-round sends send recv j (partition_of i (2 ^ left * 2))
                (partition_fits i _))
              (exchanged-rounds (round_idx + 1) left (next round_idx left e))
          ∙ join_rounds _ _ _ (i == j) _ cover never_both (same_block (2 ^ left) i j))

module _ {ℓ} {A : Type ℓ} where
  -- With 2 ^ k ranks, for two different ranks below 2 ^ k: over all rounds, the operations that the
  -- one sends to the other are those that it has for that rank, in their order and each once, and so
  -- are those that it receives from it.
  pub execute_recursive_partition-once :
      (k i j : ℕ) (sends : Bool) (send recv : Dict ℕ (List A))
      → i < 2 ^ k
      → j < 2 ^ k
      → (i == j) ≡ false
      → exchanged sends j (execute_recursive_partition_stream_transfer (2 ^ k) i send recv)
        ≡ bucket (if sends then send else recv) j
  unfolding execute_recursive_partition_stream_transfer int_log2
  execute_recursive_partition-once k i j sends send recv hi hj differ =
      rw (log2_on-pow (2 ^ k) k (below_pow k)) (
        exchanged-rounds sends send recv i j (2 ^ k) 0 k (omega arith)
        ∙ rw (div-eq_of_lt hi, div-eq_of_lt hj, differ) refl)

-- ===== src/Plan/Local/Groups.antt =====
-- The groups of operations: each holds the operations of its key, sorted.
use asystem_awex.Prelude.{
  ℕ, Each, ◌≡◌, refl, ◌∙◌, ap, Bool, true, List, [], ◌∷◌, map, select, all, all-append, arith, ◌==◌,
  if◌then◌else◌,
}
use mathlib.Core.List.{Perm}
use asystem_awex.Prelude.Equality.{nat_eq}
use asystem_awex.Prelude.Dict.{Dict, bucket, push, group_onto, group_by, values, bucket-group_by}
use asystem_awex.Prelude.Sort.{
  insert, sort_on, IsSorted, sort_on-IsSorted, sort_on-perm, pair_le-lex, list_le, all-sort_on,
  nat_ord, list_ord, pair_ord,
}
use asystem_awex.Plan.Shards.{CommunicationOperation}
use asystem_awex.Plan.Local.{Grouped, op_key, sort_group, group_operations_by_rank}

module _ {ℓ} {V : Type ℓ} where
  bucket-insert :
      (j k : ℕ) (v : List V) (d : Dict ℕ (List V))
      → bucket (insert (λ g. g.0) (j, v) d) k ≡ (if j == k then v else bucket d k)
  bucket-insert j k v [] = refl
  bucket-insert j k v ((i, w) ∷ d) = ground (arith, bucket-insert j k v d)

  -- A stable sort by the keys does not change what a key finds.
  bucket-sort_on : (d : Dict ℕ (List V)) (k : ℕ) → bucket (sort_on (λ g. g.0) d) k ≡ bucket d k
  bucket-sort_on [] k = refl
  bucket-sort_on ((j, v) ∷ d) k =
      bucket-insert j k v (sort_on (λ g. g.0) d)
      ∙ ap (λ l. if j == k then v else l) (bucket-sort_on d k)

bucket-sort_group :
    (d : Grouped) (k : ℕ) → bucket (map sort_group d) k ≡ sort_on op_key (bucket d k)
unfolding sort_group
bucket-sort_group [] k = refl
bucket-sort_group ((j, ops) ∷ d) k = ground (arith, bucket-sort_group d k)

-- The group under a rank is the list of the operations with that rank, sorted by their keys.
pub bucket-group_operations_by_rank :
    (key : CommunicationOperation → ℕ) (operations : List CommunicationOperation) (k : ℕ)
    → bucket (group_operations_by_rank key operations) k
      ≡ sort_on op_key (select (λ op. key op == k) operations)
unfolding group_operations_by_rank
bucket-group_operations_by_rank key operations k =
    bucket-sort_on (map sort_group (group_by key operations)) k
    ∙ bucket-sort_group (group_by key operations) k
    ∙ ap (sort_on op_key) (bucket-group_by key operations k)

-- Sequences compare as in Python: by the first place where they differ, and a beginning comes first.
-- An operation comes before another by the name of its parameter, then by the offset on the sending
-- side, then by the offset on the receiving side.
abbrev pub Before : CommunicationOperation → CommunicationOperation → Type 0
Before a b =
    (list_le a.send_shard_meta.name b.send_shard_meta.name ≡ true)
    × (a.send_shard_meta.name ≡ b.send_shard_meta.name
        → (list_le a.send_offset b.send_offset ≡ true)
          × (a.send_offset ≡ b.send_offset → list_le a.recv_offset b.recv_offset ≡ true))

abbrev pub InOrder : List CommunicationOperation → Type 0
InOrder [] = Unit
InOrder (op ∷ ops) = Each (Before op) ops × InOrder ops

key-Before : (a b : CommunicationOperation) → pair_ord.le (op_key a) (op_key b) ≡ true → Before a b
key-Before a b h =
    let (name, rest) = pair_le-lex (op_key a) (op_key b) h in
    (name, λ same. pair_le-lex (op_key a).1 (op_key b).1 (rest same))

Each-Before :
    (a : CommunicationOperation) (ops : List CommunicationOperation)
    → Each (λ b. pair_ord.le (op_key a) (op_key b) ≡ true) ops
    → Each (Before a) ops
Each-Before a [] h = tt
Each-Before a (b ∷ ops) h = (key-Before a b h.0, Each-Before a ops h.1)

IsSorted-InOrder : (ops : List CommunicationOperation) → IsSorted op_key ops → InOrder ops
IsSorted-InOrder [] h = tt
IsSorted-InOrder (op ∷ ops) h = (Each-Before op ops h.0, IsSorted-InOrder ops h.1)

-- _group_operations_by_rank makes a dict whose ranks are in their order. Under a rank it has the
-- operations with that rank, each as often as it was given, and an operation comes before another
-- one only if the name of its parameter comes first, or where the names are equal its offset on the
-- sending side, or where these are equal too its offset on the receiving side; equal ones come in
-- any order.
pub group_operations_by_rank-InOrder :
    (key : CommunicationOperation → ℕ) (operations : List CommunicationOperation)
    → IsSorted (λ g. g.0) (group_operations_by_rank key operations)
      × ((k : ℕ)
          → Perm
              (bucket (group_operations_by_rank key operations) k)
              (select (λ op. key op == k) operations)
            × InOrder (bucket (group_operations_by_rank key operations) k))
unfolding group_operations_by_rank
group_operations_by_rank-InOrder key operations = (
  sort_on-IsSorted (λ g. g.0) (map sort_group (group_by key operations)),
  λ k.
      let mine = select (λ op. key op == k) operations in
      rw (bucket-group_operations_by_rank key operations k)
        (sort_on-perm op_key mine, IsSorted-InOrder _ (sort_on-IsSorted op_key mine)),
)

-- What holds of all operations holds in every group.
module _ (p : CommunicationOperation → Bool) where
  abbrev every : Grouped → Bool
  every d = all (λ g. all p g.1) d

  every-push :
      (d : Grouped) (k : ℕ) (op : CommunicationOperation)
      → p op ≡ true
      → every d ≡ true
      → every (push d k op) ≡ true
  every-push [] k op h e = ground arith
  every-push ((j, ops) ∷ d) k op h e = ground (arith, every-push d k op, all-append p ops (op ∷ []))

  every-group_onto :
      (key : CommunicationOperation → ℕ) (d : Grouped) (ops : List CommunicationOperation)
      → all p ops ≡ true
      → every d ≡ true
      → every (group_onto key d ops) ≡ true
  every-group_onto key d [] h e = e
  every-group_onto key d (op ∷ ops) h e =
      every-group_onto key (push d (key op) op) ops (ground arith)
        (every-push d (key op) op (ground arith) e)

  every-sort_group : (d : Grouped) → every (map sort_group d) ≡ every d
  unfolding sort_group
  every-sort_group [] = refl
  every-sort_group ((j, ops) ∷ d) = ground (arith, all-sort_on op_key p ops, every-sort_group d)

  values-every : (d : Grouped) → all (λ ops. all p ops) (values d) ≡ every d
  values-every [] = refl
  values-every ((j, ops) ∷ d) = ground (arith, values-every d)

  pub all-group_operations_by_rank :
      (key : CommunicationOperation → ℕ) (ops : List CommunicationOperation)
      → all p ops ≡ true
      → all (λ l. all p l) (values (group_operations_by_rank key ops)) ≡ true
  unfolding group_operations_by_rank
  all-group_operations_by_rank key ops h =
      values-every (sort_on (λ g. g.0) (map sort_group (group_by key ops)))
      ∙ all-sort_on (λ g. g.0) (λ g. all p g.1) (map sort_group (group_by key ops))
      ∙ every-sort_group (group_by key ops)
      ∙ every-group_onto key [] ops h refl

-- ===== src/Prelude/Sort.antt =====
-- Python's stable sort over a total order, and the lexicographic orders of sequences and tuples.
use Prim.Native.Nat.{ℕ}
use mathlib.Core.Path.{◌≡◌, refl, sym, subst}
use mathlib.Core.Bool.{Bool, true, false}
use mathlib.Core.List.{List, [], ◌∷◌, Perm}
use mathlib.Core.List.Perm
use native.Mathlib.Omega.{arith}
use asystem_awex.Prelude.Tests.{leb, if◌then◌else◌, Bool-cases}
use asystem_awex.Prelude.Lists.{Each, count_by, all}
use mathlib.Core.Logic.{inl, inr}

pub record Ord {ℓ} (A : Type ℓ) : Type ℓ where
  pub le : A → A → Bool
  pub total : (a b : A) → le a b ≡ false → le b a ≡ true
  pub trans : (a b c : A) → le a b ≡ true → le b c ≡ true → le a c ≡ true
  pub antisym : (a b : A) → le a b ≡ true → le b a ≡ true → a ≡ b

pub leb_total : (a b : ℕ) → leb a b ≡ false → leb b a ≡ true
leb_total a b h = ground arith

pub leb_trans : (a b c : ℕ) → leb a b ≡ true → leb b c ≡ true → leb a c ≡ true
leb_trans a b c h k = ground arith

pub leb_antisym : (a b : ℕ) → leb a b ≡ true → leb b a ≡ true → a ≡ b
leb_antisym a b h k = ground arith

instance abbrev pub nat_ord : Ord ℕ
nat_ord = record { le = leb; total = leb_total; trans = leb_trans; antisym = leb_antisym }

module _ {ℓ κ} {A : Type ℓ} {B : Type κ} ⦃o : Ord A⦄ ⦃p : Ord B⦄ where
  -- The first components decide, unless they are equal.
  abbrev pub pair_le : A × B → A × B → Bool
  pair_le (a, b) (c, d) = if o.le a c then (if o.le c a then p.le b d else true) else false

  pub pair_total : (x y : A × B) → pair_le x y ≡ false → pair_le y x ≡ true
  pair_total (a, b) (c, d) h = ground (arith, o.total a c, p.total b d)

  pub pair_trans : (x y z : A × B) → pair_le x y ≡ true → pair_le y z ≡ true → pair_le x z ≡ true
  pair_trans (a, b) (c, d) (i, j) h k =
      ground (arith, o.trans a c i, o.trans i a c, o.trans c i a, p.trans b d j)

  pub pair_antisym : (x y : A × B) → pair_le x y ≡ true → pair_le y x ≡ true → x ≡ y
  pair_antisym (a, b) (c, d) h k = ground (arith, o.antisym a c, p.antisym b d)

  -- The order of pairs, by what it says of the components.
  pub pair_le-lex :
      (x y : A × B) → pair_le x y ≡ true → (o.le x.0 y.0 ≡ true) × (x.0 ≡ y.0 → p.le x.1 y.1 ≡ true)
  pair_le-lex (a, b) (c, d) h = elim (Bool-cases (o.le a c)) [
    | inl t ↦ (
      t,
      λ same.
          let back : o.le c a ≡ true =
            subst (λ z. o.le z a ≡ true) same (subst (λ z. o.le a z ≡ true) (sym same) t) in
          rw (t, back, if◌then◌else◌) at h,
    )
    | inr t ↦ absurd (cc (rw (t, if◌then◌else◌) at h))
  ]

  instance abbrev pub pair_ord : Ord (A × B)
  pair_ord = record { le = pair_le; total = pair_total; trans = pair_trans; antisym = pair_antisym }

module _ {ℓ} {A : Type ℓ} ⦃o : Ord A⦄ where
  abbrev pub list_le : List A → List A → Bool
  list_le [] ys = true
  list_le (x ∷ xs) [] = false
  list_le (x ∷ xs) (y ∷ ys) = if o.le x y then (if o.le y x then list_le xs ys else true) else false

  pub list_total : (xs ys : List A) → list_le xs ys ≡ false → list_le ys xs ≡ true
  list_total [] ys h = cc
  list_total (x ∷ xs) [] h = refl
  list_total (x ∷ xs) (y ∷ ys) h = ground (arith, o.total x y, list_total xs ys)

  pub list_trans :
      (xs ys zs : List A) → list_le xs ys ≡ true → list_le ys zs ≡ true → list_le xs zs ≡ true
  list_trans [] ys zs h k = refl
  list_trans (x ∷ xs) [] zs h k = cc
  list_trans (x ∷ xs) (y ∷ ys) [] h k = cc
  list_trans (x ∷ xs) (y ∷ ys) (z ∷ zs) h k =
      ground (arith, o.trans x y z, o.trans z x y, o.trans y z x, list_trans xs ys zs)

  pub list_antisym : (xs ys : List A) → list_le xs ys ≡ true → list_le ys xs ≡ true → xs ≡ ys
  list_antisym [] [] h k = refl
  list_antisym [] (y ∷ ys) h k = cc
  list_antisym (x ∷ xs) [] h k = cc
  list_antisym (x ∷ xs) (y ∷ ys) h k = ground (arith, o.antisym x y, list_antisym xs ys)

  instance abbrev pub list_ord : Ord (List A)
  list_ord = record { le = list_le; total = list_total; trans = list_trans; antisym = list_antisym }

-- sorted(xs, key=f): the keys are compared, and equal keys keep their order.
module _ {ℓ κ} {A : Type ℓ} {K : Type κ} ⦃o : Ord K⦄ (f : A → K) where
  abbrev pub insert : A → List A → List A
  insert x [] = x ∷ []
  insert x (y ∷ ys) = if o.le (f x) (f y) then x ∷ y ∷ ys else y ∷ insert x ys

  abbrev pub sort_on : List A → List A
  sort_on [] = []
  sort_on (x ∷ xs) = insert x (sort_on xs)

  abbrev pub IsSorted : List A → Type κ
  IsSorted [] = Unit
  IsSorted (x ∷ xs) = Each (λ y. o.le (f x) (f y) ≡ true) xs × IsSorted xs

  Each-weaken :
      (x y : A) (zs : List A)
      → o.le (f x) (f y) ≡ true
      → Each (λ z. o.le (f y) (f z) ≡ true) zs
      → Each (λ z. o.le (f x) (f z) ≡ true) zs
  Each-weaken x y [] h e = tt
  Each-weaken x y (z ∷ zs) h e = (o.trans (f x) (f y) (f z) h e.0, Each-weaken x y zs h e.1)

  Each-insert {μ} : (P : A → Type μ) (x : A) (ys : List A) → P x → Each P ys → Each P (insert x ys)
  Each-insert P x [] h e = (h, tt)
  Each-insert P x (y ∷ ys) h e = elim (Bool-cases (o.le (f x) (f y))) [
    | inl t ↦ rw (t, if◌then◌else◌) (h, e)
    | inr t ↦ rw (t, if◌then◌else◌) (e.0, Each-insert P x ys h e.1)
  ]

  insert-IsSorted : (x : A) (ys : List A) → IsSorted ys → IsSorted (insert x ys)
  insert-IsSorted x [] s = (tt, tt)
  insert-IsSorted x (y ∷ ys) s = elim (Bool-cases (o.le (f x) (f y))) [
    | inl t ↦ rw (t, if◌then◌else◌) ((t, Each-weaken x y ys t s.0), s)
    | inr t ↦
        rw (t, if◌then◌else◌)
          (
            Each-insert (λ z. o.le (f y) (f z) ≡ true) x ys (o.total (f x) (f y) t) s.0,
            insert-IsSorted x ys s.1,
          )
  ]

  pub sort_on-IsSorted : (xs : List A) → IsSorted (sort_on xs)
  sort_on-IsSorted [] = tt
  sort_on-IsSorted (x ∷ xs) = insert-IsSorted x (sort_on xs) (sort_on-IsSorted xs)

  insert-perm : (x : A) (ys : List A) → Perm (insert x ys) (x ∷ ys)
  insert-perm x [] = Perm.rfl
  insert-perm x (y ∷ ys) = elim (Bool-cases (o.le (f x) (f y))) [
    | inl t ↦ rw (t, if◌then◌else◌) Perm.rfl
    | inr t ↦ rw (t, if◌then◌else◌) (Perm.trans (Perm.cons y (insert-perm x ys)) (Perm.swap x y ys))
  ]

  pub sort_on-perm : (xs : List A) → Perm (sort_on xs) xs
  sort_on-perm [] = Perm.rfl
  sort_on-perm (x ∷ xs) = Perm.trans (insert-perm x (sort_on xs)) (Perm.cons x (sort_on-perm xs))

  count_by-insert :
      (p : A → Bool) (x : A) (ys : List A) → count_by p (insert x ys) ≡ count_by p (x ∷ ys)
  count_by-insert p x [] = refl
  count_by-insert p x (y ∷ ys) = ground (arith, count_by-insert p x ys)

  pub count_by-sort_on : (p : A → Bool) (xs : List A) → count_by p (sort_on xs) ≡ count_by p xs
  count_by-sort_on p [] = refl
  count_by-sort_on p (x ∷ xs) =
      ground (arith, count_by-insert p x (sort_on xs), count_by-sort_on p xs)

  all-insert : (p : A → Bool) (x : A) (ys : List A) → all p (insert x ys) ≡ all p (x ∷ ys)
  all-insert p x [] = refl
  all-insert p x (y ∷ ys) = ground (arith, all-insert p x ys)

  pub all-sort_on : (p : A → Bool) (xs : List A) → all p (sort_on xs) ≡ all p xs
  all-sort_on p [] = refl
  all-sort_on p (x ∷ xs) = ground (arith, all-insert p x (sort_on xs), all-sort_on p xs)

  pub Each-sort_on {μ} : (P : A → Type μ) (xs : List A) → Each P xs → Each P (sort_on xs)
  Each-sort_on P [] h = tt
  Each-sort_on P (x ∷ xs) h = Each-insert P x (sort_on xs) h.0 (Each-sort_on P xs h.1)

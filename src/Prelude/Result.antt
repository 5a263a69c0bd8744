-- ===== src/Prelude/Result.antt =====
-- Python code that may raise: the exceptions that the modelled code raises, and their propagation.
-- `out_of_fuel` is not one of them: it stands for a loop that has not ended within the model's bound.
use mathlib.Core.Path.{◌≡◌, refl}
use mathlib.Core.Logic.{◌⊎◌, inl, inr}
use mathlib.Core.Bool.{Bool, true, false}
use mathlib.Core.List.{List, [], ◌∷◌, ◌++◌}
use asystem_awex.Prelude.Lists.{Each, Each-append}

pub data Fault : Type 0 where
  value_error key_error index_error type_error assertion_error runtime_error timeout_error
        zero_division_error struct_error http_error attribute_error connection_error request_timeout
        entity_too_large out_of_fuel :
      Fault

pub data Result {ℓ} (A : Type ℓ) : Type ℓ where
  err : Fault → Result A
  ok : (value : A) → Result A

-- `if not test: raise fault`, and `assert test`
abbrev pub guard : (test : Bool) (fault : Fault) → Result (Unit {0})
guard false fault = err fault
guard true fault = ok tt

infixl 5 ◌>>=◌ ◌>>◌
abbrev pub ◌>>=◌ {ℓ κ} :
    {A : Type ℓ} {B : Type κ} (first : Result A) (next : A → Result B) → Result B
err fault >>= next = err fault
ok value >>= next = next value

abbrev pub ◌>>◌ {ℓ} : {B : Type ℓ} (first : Result (Unit {0})) (next : Result B) → Result B
first >> next = first >>= λ done. next

-- A chain that succeeds has a first step that does.
pub >>=-eq-ok {ℓ κ} :
    {A : Type ℓ} {B : Type κ} {end : B} (first : Result A) (next : A → Result B)
    → (first >>= next) ≡ ok end
    → (value : A) × (first ≡ ok value) × (next value ≡ ok end)
>>=-eq-ok (err fault) next h = cc
>>=-eq-ok (ok value) next h = (value, refl, h)

pub guard-eq-ok {ℓ} :
    {B : Type ℓ} {end : B} (test : Bool) (fault : Fault) (next : Result B)
    → (guard test fault >> next) ≡ ok end
    → (test ≡ true) × (next ≡ ok end)
guard-eq-ok false fault next h = cc
guard-eq-ok true fault next h = (refl, h)

pub ok-injective {ℓ} : {A : Type ℓ} {a b : A} → ok a ≡ ok b → a ≡ b
ok-injective h = cc

-- A loop that extends a list by what each round yields; the first fault ends it.
module _ {ℓ κ} {A : Type ℓ} {B : Type κ} where
  abbrev pub collect : (A → Result (List B)) → List A → Result (List B)
  collect f [] = ok []
  collect f (x ∷ xs) = f x >>= λ ys. collect f xs >>= λ zs. ok (ys ++ zs)

  -- Inversion of one round of the loop.
  pub record Round (f : A → Result (List B)) (x : A) (xs : List A) (out : List B)
      : Type (ℓ ⊔ κ) where
    pub now : List B
    pub later : List B
    pub now_ok : f x ≡ ok now
    pub later_ok : collect f xs ≡ ok later
    pub joined : out ≡ now ++ later

  pub collect-cons :
      (f : A → Result (List B)) (x : A) (xs : List A) {out : List B}
      → collect f (x ∷ xs) ≡ ok out
      → Round f x xs out
  collect-cons f x xs h =
      let (ys, e, h') = >>=-eq-ok (f x) _ h in
      let (zs, e', h'') = >>=-eq-ok (collect f xs) _ h' in
      record { now = ys; later = zs; now_ok = e; later_ok = e'; joined = cc }

  pub collect-ok_cons :
      (f : A → Result (List B)) (x : A) (xs : List A) {ys zs : List B}
      → f x ≡ ok ys
      → collect f xs ≡ ok zs
      → collect f (x ∷ xs) ≡ ok (ys ++ zs)
  collect-ok_cons f x xs e e' = rw (e, ◌>>=◌) (rw (e', ◌>>=◌))

  -- What holds of every element of every round's list holds of the whole list.
  pub collect-Each {μ ν} :
      (P : A → Type μ) (Q : B → Type ν) (f : A → Result (List B))
      → ((x : A) (ys : List B) → P x → f x ≡ ok ys → Each Q ys)
      → (xs : List A) (out : List B) → Each P xs
      → collect f xs ≡ ok out
      → Each Q out
  collect-Each P Q f step [] out h e = rw (← ok-injective e) tt
  collect-Each P Q f step (x ∷ xs) out h e =
      let r = collect-cons f x xs e in
      rw r.joined (
        Each-append Q r.now r.later (step x r.now h.0 r.now_ok)
          (collect-Each P Q f step xs r.later h.1 r.later_ok))

  -- Where every round succeeds, the loop does.
  pub collect_total {μ} :
      (P : A → Type μ) (f : A → Result (List B))
      → ((x : A) → P x → (ys : List B) × (f x ≡ ok ys))
      → (xs : List A) → Each P xs
      → (out : List B) × (collect f xs ≡ ok out)
  collect_total P f step [] h = ([], refl)
  collect_total P f step (x ∷ xs) h =
      let (ys, e) = step x h.0 in
      let (zs, e') = collect_total P f step xs h.1 in (ys ++ zs, collect-ok_cons f x xs e e')

pub Result-cases {ℓ} :
    {A : Type ℓ} (m : Result A)
    → ((value : A) × (m ≡ ok value)) ⊎ ((fault : Fault) × (m ≡ err fault))
Result-cases (ok value) = inl (value, refl)
Result-cases (err fault) = inr (fault, refl)

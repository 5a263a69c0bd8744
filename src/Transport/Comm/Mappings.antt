-- ===== src/Transport/Comm/Mappings.antt =====
-- Rank mappings that pass the validation are inverse to each other.
use asystem_awex.Prelude.{
  ℕ, ◌≡◌, ap, subst, ◌∙◌, ◌↔◌, true, some, [], ◌∷◌, ◌==◌, Bool-cases, inl, inr, ==_iff,
  Option-cases, if◌then◌else◌,
}
use asystem_awex.Prelude.Equality.{nat_eq}
use asystem_awex.Prelude.Dict.{Dict, get}
use asystem_awex.Prelude.Result.{ok, value_error, guard-eq-ok, >>=-eq-ok}
use asystem_awex.Transport.Comm.{maps_to, validate_inverse, validate_rank_mappings}

maps_to-get : (d : Dict ℕ ℕ) (a b : ℕ) → maps_to d a b ≡ true → get d a ≡ some b
unfolding maps_to
maps_to-get d a b h = elim (Option-cases (get d a)) [
  | inl e ↦ let no = rw (maps_to, e) at h in cc
  | inr (c, e) ↦ e ∙ ap some ((==_iff c b).0 (rw (maps_to, e) at h))
]

some_injective : {a b : ℕ} → some a ≡ some b → a ≡ b
some_injective h = cc

validate_inverse-get :
    (inverse mapping : Dict ℕ ℕ)
    → validate_inverse inverse mapping ≡ ok tt
    → (a b : ℕ) → get mapping a ≡ some b
    → get inverse b ≡ some a
unfolding validate_inverse
validate_inverse-get inverse [] h a b found = cc
validate_inverse-get inverse ((r, i) ∷ mapping) h a b found =
    let (here, later) =
      guard-eq-ok (maps_to inverse i r) value_error (validate_inverse inverse mapping) h in
    elim (Bool-cases (r == a)) [
      | inl t ↦
          let same : i ≡ b = some_injective (rw (t, if◌then◌else◌) at found) in
          subst (λ x. get inverse b ≡ some x) ((==_iff r a).0 t)
            (subst (λ x. get inverse x ≡ some r) same (maps_to-get inverse i r here))
      | inr t ↦ validate_inverse-get inverse mapping later a b (rw (t, if◌then◌else◌) at found)
    ]

-- When validate_rank_mappings does not raise, the two mappings are inverse to each other: a training
-- rank maps to an inference rank exactly where that inference rank maps back to it.
pub validate_rank_mappings-inverse :
    (train_to_infer infer_to_train : Dict ℕ ℕ)
    → validate_rank_mappings train_to_infer infer_to_train ≡ ok tt
    → (t i : ℕ) → (get train_to_infer t ≡ some i) ↔ (get infer_to_train i ≡ some t)
unfolding validate_rank_mappings
validate_rank_mappings-inverse train_to_infer infer_to_train h t i =
    let (done, first, second) = >>=-eq-ok (validate_inverse infer_to_train train_to_infer) _ h in
    (
      validate_inverse-get infer_to_train train_to_infer first t i,
      validate_inverse-get train_to_infer infer_to_train second i t,
    )

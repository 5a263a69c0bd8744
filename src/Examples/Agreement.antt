-- ===== src/Examples/Agreement.antt =====
-- The check of the two sides' metadata, and the interleaving of operations by peer.
use asystem_awex.Prelude.{ℕ, ◌≡◌, ◌↔◌, refl, true, false, some, List, [], ◌∷◌, select, length, ◌==◌}
use asystem_awex.Prelude.Equality.{Text, list_eq, nat_eq}
use asystem_awex.Prelude.Dict.{get, keys}
use asystem_awex.Prelude.Result.{ok}
use asystem_awex.Meta.{ParameterMeta}
use asystem_awex.Common.Keys.{key_mismatch}
use asystem_awex.Common.Check.{by_name, check_train_infer_params_meta}
use asystem_awex.Common.Check.Agreement.{Agree, check_train_infer_params_meta_iff}
use asystem_awex.Transport.Comm.Interleave.{interleave_p2p_ops_by_peer}
use asystem_awex.Transport.Comm.Interleave.Kept.{interleave_p2p_ops_by_peer-kept}
use asystem_awex.Examples.Data.{infer_weight, train_weight}

agreement_example :
    (check_train_infer_params_meta (train_weight ∷ []) (infer_weight ∷ []) true true ≡ ok tt) ↔ (
      (key_mismatch true
          (keys (by_name [] (infer_weight ∷ [])))
          (keys (by_name [] (train_weight ∷ [])))
        ≡ false)
      × ((name : Text) (i t : ParameterMeta)
          → get (by_name [] (infer_weight ∷ [])) name ≡ some i
          → get (by_name [] (train_weight ∷ [])) name ≡ some t
          → Agree i t))
agreement_example = check_train_infer_params_meta_iff (train_weight ∷ []) (infer_weight ∷ []) true

-- The check lets this model pass.
the_model_passes :
    check_train_infer_params_meta (train_weight ∷ []) (infer_weight ∷ []) true true ≡ ok tt
unfolding check_train_infer_params_meta key_mismatch
the_model_passes = refl

-- Pairs of a peer and a number.
abbrev some_ops : List (ℕ × ℕ)
some_ops = (2, 0) ∷ (2, 1) ∷ (1, 2) ∷ (2, 3) ∷ (1, 4) ∷ []

interleaved_ops :
    interleave_p2p_ops_by_peer (λ op. op.0) some_ops
    ≡ ok ((1, 2) ∷ (2, 0) ∷ (1, 4) ∷ (2, 1) ∷ (2, 3) ∷ [])
unfolding interleave_p2p_ops_by_peer
interleaved_ops = refl

interleave_example :
    (interleaved : List (ℕ × ℕ)) × (interleave_p2p_ops_by_peer (λ op. op.0) some_ops
      ≡ ok interleaved)
    × ((p : ℕ) → select (λ op. op.0 == p) interleaved ≡ select (λ op. op.0 == p) some_ops)
    × (length interleaved ≡ 5)
interleave_example = interleave_p2p_ops_by_peer-kept (λ op. op.0) some_ops

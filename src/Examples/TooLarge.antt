-- ===== src/Examples/TooLarge.antt =====
-- A pickle and a JSON encoder whose dumps have two GiB. The bytes are never computed.
use asystem_awex.Prelude.{ℕ, zero, suc, ◌≡◌, refl, ap, none, [], ◌∷◌, length, arith}
use asystem_awex.Prelude.Equality.{list_eq, nat_eq}
use asystem_awex.Prelude.Result.{ok, err, http_error, struct_error}
use asystem_awex.Common.Framing.{Bytes, Pickle}
use asystem_awex.MetaServer.{Value, one, Json, client_max_size}
use asystem_awex.MetaServer.Client.{client_put_object, client_put_json, client_add_object_to_set}
use asystem_awex.MetaServer.Client.Stored.{Holds}
use asystem_awex.MetaServer.Client.TooLarge.{put-too_large}
use asystem_awex.Examples.MetaServer.{weights_key, lost_request, a_server}

zeros : ℕ → Bytes
zeros zero = []
zeros (suc n) = 0 ∷ zeros n

length-zeros : (n : ℕ) → length (zeros n) ≡ n
unfolding zeros
length-zeros zero = refl
length-zeros (suc n) = ap suc (length-zeros n)

two_gib : Bytes
unfolding zeros
two_gib = zeros client_max_size

length-two_gib : length two_gib ≡ client_max_size
unfolding two_gib
length-two_gib = length-zeros client_max_size

abbrev long_pickle : Pickle (Value ℕ)
long_pickle = record { dumps = λ v. two_gib; loads = λ bytes. err struct_error }

abbrev long_json : Json Bytes
long_json = record { loads = λ bytes. ok bytes; dumps = λ bytes. two_gib }

too_large_example :
    ((client_put_object long_pickle long_json lost_request weights_key (one 7) a_server).0
      ≡ err http_error)
    × Holds long_pickle long_json weights_key none
        (client_put_object long_pickle long_json lost_request weights_key (one 7) a_server).1
    × ((client_add_object_to_set long_pickle long_json lost_request weights_key (one 7) a_server).0
        ≡ err http_error)
    × Holds long_pickle long_json weights_key none
        (client_add_object_to_set long_pickle long_json lost_request weights_key (one 7) a_server).1
    × ((client_put_json long_pickle long_json lost_request weights_key [] a_server).0
        ≡ err http_error)
    × Holds long_pickle long_json weights_key none
        (client_put_json long_pickle long_json lost_request weights_key [] a_server).1
too_large_example =
    put-too_large long_pickle long_json weights_key (one 7) [] none (omega (arith, length-two_gib))
      (omega (arith, length-two_gib)) (omega (arith, length-two_gib)) lost_request (omega arith)
      ((refl, tt), tt) a_server refl

-- ===== src/MetaServer/Client/TooLarge.antt =====
-- What a client gets for data that the server does not take.
use asystem_awex.Prelude.{◌+◌, ◌^◌, ◌<◌, ◌≤◌, ◌≡◌, refl, ap, arith, Option, List, length}
use asystem_awex.Prelude.Equality.{Text, Eq, list_eq, nat_eq}
use asystem_awex.Prelude.Result.{Result, err, http_error, ◌>>=◌}
use asystem_awex.Common.Framing.{Bytes, Pickle, from_binary}
use asystem_awex.Common.Framing.Roundtrip.{to_binary-fits, length-to_binary}
use asystem_awex.MetaServer.{
  Value, Stored, Json, MetaServer, Request, put_binary, put_json, add_object_to_set, Response,
  client_max_size, handle, put_binary_handler, put_json_handler, add_object_to_set_handler, fail,
}
use asystem_awex.MetaServer.Frame.{read-long}
use asystem_awex.MetaServer.Retry.{Failed, Sent-of}
use asystem_awex.MetaServer.Client.{
  ask, check_success, raise_for_status, client_put_object, client_put_json,
  client_add_object_to_set,
}
use asystem_awex.MetaServer.Client.Stored.{Holds, AllLeave, Undisturbed-Holds}

module _ {A J : Type 0} ⦃e : Eq A⦄ (pickle : Pickle (Value A)) (js : Json J) where
  -- A request that the server refuses, in every state with the same answer: the client gets what it
  -- makes of that answer, and the key holds what it held.
  refused-keeps :
      {X : Type 0} (key : Text) (found : Option (Stored A)) (request : Request)
      (answer : Response J) (readout : Response J → Result X)
      → ((s : MetaServer A) → handle pickle js request s ≡ (answer, s))
      → (failures : List Failed) → length failures < 10
      → AllLeave key failures
      → (server : MetaServer A) → Holds pickle js key found server
      → ((ask pickle js failures request readout server).0 ≡ readout answer)
        × Holds pickle js key found (ask pickle js failures request readout server).1
  unfolding ask
  refused-keeps key found request answer readout same failures few others server p =
      let a =
        Sent-of pickle js (Holds pickle js key found) failures request (λ s h. rw (same s) h)
          (Undisturbed-Holds pickle js key found failures others) few server p in
      let got = same a.before in
      (rw (ask, a.answer) (ap (λ r. readout r.0) got), rw (ask, a.answer) (rw got a.kept))

  put_binary-refused :
      (key : Text) (body : Bytes)
      → client_max_size ≤ length body
      → (s : MetaServer A) → handle pickle js (put_binary key body) s ≡ (fail 413, s)
  unfolding handle put_binary_handler
  put_binary-refused key body long s =
      let over = read-long body long in rw (handle, put_binary_handler, over) refl

  add_object_to_set-refused :
      (key : Text) (body : Bytes)
      → client_max_size ≤ length body
      → (s : MetaServer A) → handle pickle js (add_object_to_set key body) s ≡ (fail 500, s)
  unfolding handle add_object_to_set_handler
  add_object_to_set-refused key body long s =
      let over = ap (λ r. r >>= from_binary pickle) (read-long body long) in
      rw (handle, add_object_to_set_handler, over) refl

  put_json-refused :
      (key : Text) (body : Bytes)
      → client_max_size ≤ length body
      → (s : MetaServer A) → handle pickle js (put_json key body) s ≡ (fail 500, s)
  unfolding handle put_json_handler
  put_json-refused key body long s =
      let over = ap (λ r. r >>= js.loads) (read-long body long) in
      rw (handle, put_json_handler, over) refl

  -- An object whose pickled data has less than 4 GiB, but with the four bytes of the length at least
  -- the 2 GiB from which the server refuses a body, and JSON data whose dump has at least 2 GiB:
  -- put_object and add_object_to_set of the one and put_json of the other raise the HTTP error, and
  -- the key then holds what it held before. Up to nine attempts fail, and nobody else writes the key
  -- meanwhile.
  pub put-too_large :
      (key : Text) (object : Value A) (data_dict : J) (held : Option (Stored A))
      → length (pickle.dumps object) < 2 ^ 32
      → client_max_size ≤ length (pickle.dumps object) + 4
      → client_max_size ≤ length (js.dumps data_dict)
      → (failures : List Failed) → length failures < 10
      → AllLeave key failures
      → (server : MetaServer A) → Holds pickle js key held server
      → ((client_put_object pickle js failures key object server).0 ≡ err http_error)
        × Holds pickle js key held (client_put_object pickle js failures key object server).1
        × ((client_add_object_to_set pickle js failures key object server).0 ≡ err http_error)
        × Holds pickle js key held (client_add_object_to_set pickle js failures key object server).1
        × ((client_put_json pickle js failures key data_dict server).0 ≡ err http_error)
        × Holds pickle js key held (client_put_json pickle js failures key data_dict server).1
  unfolding client_put_object client_add_object_to_set client_put_json check_success
  put-too_large key object data_dict held fits long long' failures few others server p =
      let (frame, made) = to_binary-fits pickle object fits in
      let size = length-to_binary pickle object frame made in
      let over : client_max_size ≤ length frame = omega (arith, size) in
      let (put_error, put_holds) =
        refused-keeps key held (put_binary key frame) (fail 413) (check_success pickle js)
          (put_binary-refused key frame over) failures few others server p in
      let (add_error, add_holds) =
        refused-keeps key held (add_object_to_set key frame) (fail 500) (check_success pickle js)
          (add_object_to_set-refused key frame over) failures few others server p in
      let (json_error, json_holds) =
        refused-keeps key held (put_json key (js.dumps data_dict)) (fail 500) raise_for_status
          (put_json-refused key (js.dumps data_dict) long') failures few others server p in
      (
        rw (client_put_object, made) put_error,
        rw (client_put_object, made) put_holds,
        rw (client_add_object_to_set, made) add_error,
        rw (client_add_object_to_set, made) add_holds,
        json_error,
        json_holds,
      )

-- ===== src/Examples/MetaServer.antt =====
-- The meta server and its clients on small data: an encoder of numbers and sets, and JSON data that
-- is its own text.
use asystem_awex.Prelude.{
  ℕ, zero, suc, ◌<◌, ◌≡◌, refl, true, false, none, some, List, [], ◌∷◌, ◌++◌, arith, ◌==◌,
  if◌then◌else◌,
}
use asystem_awex.Prelude.Equality.{Text, list_eq, nat_eq}
use asystem_awex.Prelude.Dict.{get}
use asystem_awex.Prelude.Result.{Result, ok, err, struct_error, http_error, value_error}
use asystem_awex.Common.Framing.{Bytes, Pickle, to_binary, from_binary}
use asystem_awex.Common.Framing.Roundtrip.{from_binary-to_binary, from_binary-short}
use asystem_awex.MetaServer.{
  Value, one, many, raw, Json, MetaServer, Request, delete, has_key, put_binary,
  allocate_auto_grow_id, handle, run, has_key_handler, put_binary_handler, read,
}
use asystem_awex.MetaServer.Frame.{handle-frame}
use asystem_awex.MetaServer.Ids.{ids, run-ids}
use asystem_awex.MetaServer.Retry.{Failed, attempt, retry, send}
use asystem_awex.MetaServer.Client.{
  client_put_object, client_get_object, client_put_json, client_get_json, client_get_binary,
  client_delete, ask, client_has_key,
}
use asystem_awex.MetaServer.Client.Stored.{get_object-put_object}
use asystem_awex.MetaServer.Client.Missing.{client-missing, get_json-put_json}
use asystem_awex.MetaServer.Client.Wait.{Surroundings, wait_key, poll, after_round}
use asystem_awex.MetaServer.Client.Wait.Outcome.{Ended, refused, wait_key_total, wait_key-found}

abbrev dumps : Value ℕ → Bytes
dumps (one n) = 0 ∷ n ∷ []
dumps (many ns) = 1 ∷ ns

abbrev loads : Bytes → Result (Value ℕ)
loads [] = err struct_error
loads (zero ∷ n ∷ rest) = ok (one n)
loads (zero ∷ []) = err struct_error
loads (suc k ∷ ns) = ok (many ns)

abbrev pub small_pickle : Pickle (Value ℕ)
small_pickle = record { dumps = dumps; loads = loads }

pub small_pickle-reads : (v : Value ℕ) → loads (dumps v) ≡ ok v
small_pickle-reads (one n) = refl
small_pickle-reads (many ns) = refl

abbrev pub plain_json : Json Bytes
plain_json = record { loads = λ bytes. ok bytes; dumps = λ bytes. bytes }

abbrev pub weights_key : Text
weights_key = 119 ∷ 49 ∷ []

abbrev other_key : Text
other_key = 119 ∷ 50 ∷ []

-- Something else lies there, and nothing under weights_key.
abbrev pub a_server : MetaServer ℕ
a_server = record { storage = (other_key, raw (7 ∷ [])) ∷ []; id_counter = 5 }

abbrev a_set : Value ℕ
a_set = many (3 ∷ 4 ∷ [])

-- The first attempt is served and its answer lost, while others write the same key and another.
abbrev lost_answer : List Failed
lost_answer =
    (record {
      served = true;
      timed_out = true;
      meanwhile = put_binary weights_key (9 ∷ []) ∷ put_binary other_key [] ∷ [];
    })
    ∷ []

-- The first attempt does not arrive, while another key is written.
abbrev pub lost_request : List Failed
lost_request =
    (record { served = false; timed_out = false; meanwhile = put_binary other_key (1 ∷ []) ∷ [] })
    ∷ []

framing_example :
    (frame : Bytes) × (to_binary small_pickle a_set ≡ ok frame)
    × (from_binary small_pickle (frame ++ 8 ∷ []) ≡ ok a_set)
framing_example = from_binary-to_binary small_pickle a_set (8 ∷ []) (omega arith) refl

short_example : from_binary small_pickle (1 ∷ 2 ∷ []) ≡ err struct_error
short_example = from_binary-short small_pickle (1 ∷ 2 ∷ []) (omega arith)

frame_example :
    get
      (handle small_pickle plain_json (put_binary weights_key (1 ∷ [])) a_server).1.storage
      other_key
    ≡ some (raw (7 ∷ []))
frame_example =
    handle-frame small_pickle plain_json (put_binary weights_key (1 ∷ [])) a_server other_key refl

abbrev id_requests : List Request
id_requests =
    allocate_auto_grow_id ∷ has_key other_key ∷ allocate_auto_grow_id ∷ delete other_key ∷ []

ids_example :
    ids small_pickle plain_json (run small_pickle plain_json id_requests a_server).0 ≡ 5 ∷ 6 ∷ []
ids_example = run-ids small_pickle plain_json id_requests a_server

object_example :
    ((client_put_object small_pickle plain_json lost_answer weights_key a_set a_server).0 ≡ ok tt)
    × ((client_get_object small_pickle plain_json lost_request weights_key none
          (run small_pickle plain_json id_requests
            (client_put_object small_pickle plain_json lost_answer weights_key a_set
              a_server).1).1).0
        ≡ ok (some a_set))
object_example =
    get_object-put_object small_pickle plain_json weights_key a_set none (omega arith, refl)
      lost_answer lost_request id_requests (omega arith) (omega arith)
      (refl, (refl, (refl, (refl, tt)))) ((refl, tt), tt) a_server

json_example :
    ((client_put_json small_pickle plain_json lost_answer weights_key (5 ∷ []) a_server).0 ≡ ok tt)
    × ((client_get_json small_pickle plain_json lost_request weights_key
          (run small_pickle plain_json id_requests
            (client_put_json small_pickle plain_json lost_answer weights_key
              (5 ∷ [])
              a_server).1).1).0
        ≡ ok (5 ∷ []))
json_example =
    get_json-put_json small_pickle plain_json weights_key (5 ∷ []) refl (omega arith) lost_answer
      lost_request id_requests (omega arith) (omega arith) (refl, (refl, (refl, (refl, tt))))
      ((refl, tt), tt) a_server

missing_example :
    ((client_get_binary small_pickle plain_json lost_request weights_key a_server).0
      ≡ err value_error)
    × ((client_get_json small_pickle plain_json lost_request weights_key a_server).0
        ≡ err value_error)
    × ((client_get_object small_pickle plain_json lost_request weights_key (some a_set) a_server).0
        ≡ ok (some a_set))
    × ((client_delete small_pickle plain_json lost_request weights_key a_server).0 ≡ err http_error)
missing_example =
    client-missing small_pickle plain_json weights_key (some a_set) lost_request (omega arith)
      ((refl, tt), tt) a_server refl

-- The key is put in the second sleep; the second poll goes wrong at first.
abbrev calm : Surroundings
calm = record {
  failures = λ n. if n == 1 then lost_request else [];
  meanwhile = λ n. if n == 1 then put_binary weights_key [] ∷ [] else [];
  a_minute_passed = λ n. false;
}

total_example :
    Ended small_pickle plain_json calm weights_key 2
      (wait_key small_pickle plain_json calm weights_key 300 a_server)
total_example = wait_key_total small_pickle plain_json calm weights_key 300 a_server

calm-answers : (m : ℕ) → m < 2 → refused (calm.failures m) ≡ false
calm-answers zero h = refl
calm-answers (suc zero) h = refl
calm-answers (suc (suc m)) h = absurd (omega arith)

found_example : (wait_key small_pickle plain_json calm weights_key 9000 a_server).0 ≡ ok tt
unfolding poll after_round client_has_key ask send retry attempt run handle has_key_handler
    put_binary_handler read
found_example =
    wait_key-found small_pickle plain_json calm weights_key 2 9000 (omega arith) calm-answers
      a_server refl

-- ===== src/MetaServer/Client.antt =====
-- The operations of MetaServerClient, awex/meta/meta_server.py, that ask the server once, on top of
-- the session and its retries. What they raise is raised after the server has changed.
pub mod Stored
pub mod Missing
pub mod TooLarge
pub mod Wait
pub mod Once
use asystem_awex.Prelude.{
  ℕ, zero, suc, ◌+◌, ◌<◌, ◌≤◌, ◌≡◌, refl, Bool, true, false, Option, none, some, List, [], ◌∷◌,
  arith, ◌==◌, leb, if◌then◌else◌,
}
use asystem_awex.Prelude.Equality.{Text, Eq, list_eq}
use asystem_awex.Prelude.Result.{
  Result, ok, err, Fault, http_error, value_error, runtime_error, type_error, guard, ◌>>=◌, ◌>>◌,
}
use asystem_awex.Common.Framing.{Bytes, Pickle, to_binary, from_binary}
use asystem_awex.MetaServer.{
  Value, Json, MetaServer, Request, get_binary, delete, get_json, has_key, put_binary,
  add_object_to_set, put_json, list_keys, health_check, allocate_auto_grow_id, Body, message,
  failure, binary, json, has_key_is, keys_are, storage_size_is, id_is, Response,
}
use asystem_awex.MetaServer.Retry.{Failed, send}

-- response.raise_for_status()
abbrev pub raise_for_status : {J : Type 0} → Response J → Result (Unit {0})
raise_for_status response = guard (leb response.status 399) http_error

-- What the client takes from the body of a response of its request. A body of another request's
-- kind does not reach it.
abbrev pub content : {J : Type 0} → Body J → Result Bytes
content (binary bytes) = ok bytes
content _ = err type_error

abbrev pub json_of : {J : Type 0} → Body J → Result J
json_of (json found) = ok found
json_of _ = err type_error

abbrev pub has_key_of : {J : Type 0} → Body J → Result Bool
has_key_of (has_key_is b) = ok b
has_key_of _ = err type_error

abbrev pub keys_of : {J : Type 0} → Body J → Result (List Text)
keys_of (keys_are ks) = ok ks
keys_of _ = err type_error

abbrev pub id_of : {J : Type 0} → Body J → Result ℕ
id_of (id_is n) = ok n
id_of _ = err type_error

-- result.get("success")
abbrev pub success : {J : Type 0} → Body J → Bool
success failure = false
success _ = true

module _ {A J : Type 0} ⦃e : Eq A⦄ (pickle : Pickle (Value A)) (js : Json J) where
  -- A request, and what the client makes of the response.
  abbrev pub Asked : Type 0 → Type 0
  Asked X = Result X × MetaServer A

  unfoldable pub ask :
      {X : Type 0} → List Failed → Request → (Response J → Result X) → MetaServer A → Asked X
  ask failures request read server =
      let (response, next) = send pickle js failures request server in (response >>= read, next)

  -- MetaServerClient.get_binary with no timeout
  pub fetch_binary : Text → Response J → Result Bytes
  fetch_binary key response =
      if response.status == 404
      then err value_error
      else raise_for_status response >> content response.body

  -- The end of get_object: `default_value` for a missing key, otherwise the object that the bytes
  -- hold.
  unfoldable pub fetch_object : Option (Value A) → Response J → Result (Option (Value A))
  fetch_object default_value response = if response.status == 404 then ok default_value else (do
    raise_for_status response
    binary_data ← content response.body
    found ← from_binary pickle binary_data
    ok (some found))

  pub fetch_json : Response J → Result J
  fetch_json response =
      if response.status == 404
      then err value_error
      else raise_for_status response >> json_of response.body

  -- The end of put_object and of add_object_to_set.
  pub check_success : Response J → Result (Unit {0})
  check_success response = do raise_for_status response; guard (success response.body) runtime_error

  pub client_get_binary : List Failed → Text → MetaServer A → Asked Bytes
  unfolding ask fetch_binary
  client_get_binary failures key server = ask failures (get_binary key) (fetch_binary key) server

  pub client_put_binary : List Failed → Text → Bytes → MetaServer A → Asked (Unit {0})
  unfolding ask
  client_put_binary failures key bytes server =
      ask failures (put_binary key bytes) raise_for_status server

  unfoldable pub client_get_object :
      List Failed → Text → Option (Value A) → MetaServer A → Asked (Option (Value A))
  unfolding ask fetch_object
  client_get_object failures key default_value server =
      ask failures (get_binary key) (fetch_object default_value) server

  pub client_put_object : List Failed → Text → Value A → MetaServer A → Asked (Unit {0})
  unfolding ask check_success
  client_put_object failures key object server = elim (to_binary pickle object) [
    | err fault ↦ (err fault, server)
    | ok binary_data ↦ ask failures (put_binary key binary_data) check_success server
  ]

  pub client_add_object_to_set : List Failed → Text → Value A → MetaServer A → Asked (Unit {0})
  unfolding ask check_success
  client_add_object_to_set failures key object server = elim (to_binary pickle object) [
    | err fault ↦ (err fault, server)
    | ok binary_data ↦ ask failures (add_object_to_set key binary_data) check_success server
  ]

  -- get_set: the object under the key, None for a missing key
  pub client_get_set : List Failed → Text → MetaServer A → Asked (Option (Value A))
  unfolding client_get_object
  client_get_set failures key server = client_get_object failures key none server

  pub client_get_json : List Failed → Text → MetaServer A → Asked J
  unfolding ask fetch_json
  client_get_json failures key server = ask failures (get_json key) fetch_json server

  pub client_put_json : List Failed → Text → J → MetaServer A → Asked (Unit {0})
  unfolding ask
  client_put_json failures key found server =
      ask failures (put_json key (js.dumps found)) raise_for_status server

  unfoldable pub client_delete : List Failed → Text → MetaServer A → Asked (Unit {0})
  unfolding ask
  client_delete failures key server = ask failures (delete key) raise_for_status server

  -- Whatever `delete` raises is dropped.
  unfoldable pub delete_if_exists : List Failed → Text → MetaServer A → Asked (Unit {0})
  unfolding client_delete
  delete_if_exists failures key server = (ok tt, (client_delete failures key server).1)

  unfoldable pub client_has_key : List Failed → Text → MetaServer A → Asked Bool
  unfolding ask
  client_has_key failures key server =
      ask failures (has_key key) (λ r. raise_for_status r >> has_key_of r.body) server

  pub client_list_keys : List Failed → MetaServer A → Asked (List Text)
  unfolding ask
  client_list_keys failures server =
      ask failures list_keys (λ r. raise_for_status r >> keys_of r.body) server

  pub client_health_check : List Failed → MetaServer A → Asked (Body J)
  unfolding ask
  client_health_check failures server =
      ask failures health_check (λ r. raise_for_status r >> ok r.body) server

  pub allocate_id : List Failed → MetaServer A → Asked ℕ
  unfolding ask
  allocate_id failures server =
      ask failures allocate_auto_grow_id (λ r. raise_for_status r >> id_of r.body) server

-- ===== src/MetaServer/Client/Missing.antt =====
-- What a client gets for a key that is not there, and JSON data that is.
use asystem_awex.Prelude.{
  ◌<◌, ◌≡◌, refl, ap, ◌∙◌, true, Option, none, some, List, length, if◌then◌else◌,
}
use asystem_awex.Prelude.Equality.{Text, Eq, list_eq, nat_eq, beq_refl}
use asystem_awex.Prelude.Dict.{get, get-put, has-missing}
use asystem_awex.Prelude.Result.{ok, err, http_error, value_error, ◌>>=◌}
use asystem_awex.Common.Framing.{Pickle}
use asystem_awex.MetaServer.{
  Value, raw, Json, MetaServer, Request, get_binary, get_json, put_json, delete, handle, run,
  get_binary_handler, get_json_handler, put_json_handler, as_json, delete_handler, fail,
  client_max_size,
}
use asystem_awex.MetaServer.Retry.{Failed, run-keeps}
use asystem_awex.MetaServer.Frame.{read-short}
use asystem_awex.MetaServer.Client.{
  fetch_binary, fetch_object, fetch_json, raise_for_status, client_get_binary, client_get_object,
  client_get_json, client_put_json, client_delete,
}
use asystem_awex.MetaServer.Client.Stored.{
  Holds, Leave, AllLeave, Each-Keeps, asked_while, asked_keeping, asked,
}

module _ {A J : Type 0} ⦃e : Eq A⦄ (pickle : Pickle (Value A)) (js : Json J) where
  delete-nothing :
      (key : Text) (s : MetaServer A)
      → get s.storage key ≡ none
      → handle pickle js (delete key) s ≡ (fail 404, s)
  unfolding handle delete_handler
  delete-nothing key s h =
      let nowhere = has-missing s.storage key h in
      rw (handle, delete_handler, nowhere, if◌then◌else◌) refl

  fetch_json-raw :
      (found : J) (key : Text)
      → js.loads (js.dumps found) ≡ ok found
      → (s : MetaServer A) → Holds pickle js key (some (raw (js.dumps found))) s
      → fetch_json pickle js (handle pickle js (get_json key) s).0 ≡ ok found
  unfolding fetch_json handle get_json_handler as_json
  fetch_json-raw found key reads s p =
      rw (handle, get_json_handler, p, as_json) (rw (fetch_json, reads) refl)

  -- For a key that the server does not hold, and that nobody writes while the client tries, with up
  -- to nine failed attempts: get_binary and get_json raise ValueError, get_object returns its
  -- default, and delete raises the HTTP error.
  pub client-missing :
      (key : Text) (default_value : Option (Value A)) (failures : List Failed)
      → length failures < 10
      → AllLeave key failures
      → (server : MetaServer A) → get server.storage key ≡ none
      → ((client_get_binary pickle js failures key server).0 ≡ err value_error)
        × ((client_get_json pickle js failures key server).0 ≡ err value_error)
        × ((client_get_object pickle js failures key default_value server).0 ≡ ok default_value)
        × ((client_delete pickle js failures key server).0 ≡ err http_error)
  unfolding client_get_binary client_get_json client_get_object client_delete fetch_binary
      fetch_json fetch_object handle get_binary_handler get_json_handler
  client-missing key default_value failures fewer others server p =
      let (s, kept, answer) =
        asked_while pickle js key none failures (get_binary key) (fetch_binary pickle js key) refl
          others fewer server p in
      let (s', kept', answer') =
        asked_while pickle js key none failures (get_json key) (fetch_json pickle js) refl others
          fewer server p in
      let (s'', kept'', answer'') =
        asked_while pickle js key none failures (get_binary key)
          (fetch_object pickle js default_value) refl others fewer server p in
      let (t, gone, refused) =
        asked_keeping pickle js key none failures (delete key) raise_for_status
          (λ s h. ap (λ r. get r.1.storage key) (delete-nothing key s h) ∙ h) others fewer server
          p in
      (
        answer ∙ rw (handle, get_binary_handler, kept, fetch_binary) refl,
        answer' ∙ rw (handle, get_json_handler, kept', fetch_json) refl,
        answer'' ∙ rw (handle, get_binary_handler, kept'', fetch_object) refl,
        refused ∙ ap (λ r. raise_for_status r.0) (delete-nothing key t gone),
      )

  -- put_json leaves the key with the data's dump.
  client_put_json-stores :
      (key : Text) (found : J)
      → js.loads (js.dumps found) ≡ ok found
      → length (js.dumps found) < client_max_size
      → (failures : List Failed) → length failures < 10
      → (server : MetaServer A)
      → ((client_put_json pickle js failures key found server).0 ≡ ok tt)
        × Holds pickle js key
            (some (raw (js.dumps found)))
            (client_put_json pickle js failures key found server).1
  unfolding client_put_json handle put_json_handler
  client_put_json-stores key found reads short failures few server =
      let taken = ap (λ r. r >>= js.loads) (read-short (js.dumps found) short) ∙ reads in
      let (s, put_it) =
        asked pickle js failures (put_json key (js.dumps found)) raise_for_status few server in
      let itself : list_eq.beq key key ≡ true = beq_refl key in
      (
        ap (λ r. r.0) put_it ∙ rw (handle, put_json_handler, taken) refl,
        ap (λ r. get r.1.storage key) put_it
            ∙ rw (handle, put_json_handler, taken)
                (get-put s.storage key key (raw (js.dumps found))
                  ∙ rw (itself, if◌then◌else◌) refl),
      )

  -- JSON data that the decoder reads back from its dump, a dump below 2 GiB, put with put_json and then read with
  -- get_json, comes back, under failed attempts and requests of others that are like those of
  -- get_object-put_object.
  pub get_json-put_json :
      (key : Text) (found : J)
      → js.loads (js.dumps found) ≡ ok found
      → length (js.dumps found) < client_max_size
      → (first second : List Failed) (between : List Request) → length first < 10
      → length second < 10
      → Leave key between
      → AllLeave key second
      → (server : MetaServer A)
      → ((client_put_json pickle js first key found server).0 ≡ ok tt)
        × ((client_get_json pickle js second key
              (run pickle js between (client_put_json pickle js first key found server).1).1).0
            ≡ ok found)
  unfolding client_get_json
  get_json-put_json key found reads short first second between few few' h others server =
      let (put_ok, holds) = client_put_json-stores key found reads short first few server in
      let still =
        run-keeps pickle js (Holds pickle js key (some (raw (js.dumps found)))) between
          (Each-Keeps pickle js key (some (raw (js.dumps found))) between h) _ holds in
      let (s, kept, answer) =
        asked_while pickle js key (some (raw (js.dumps found))) second (get_json key)
          (fetch_json pickle js) refl others few' _ still in
      (put_ok, answer ∙ fetch_json-raw found key reads s kept)

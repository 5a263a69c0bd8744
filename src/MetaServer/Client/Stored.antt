-- ===== src/MetaServer/Client/Stored.antt =====
-- What one client stores and another reads, with lost attempts and other requests in between.
use asystem_awex.Prelude.{
  ◌+◌, arith, ◌<◌, ◌≡◌, refl, sym, ap, ◌∙◌, append-nil, true, false, Option, some, List, [], ◌∷◌,
  length, Each, if◌then◌else◌,
}
use asystem_awex.Prelude.Equality.{Text, Eq, list_eq, nat_eq, beq_refl}
use asystem_awex.Prelude.Dict.{get, get-put}
use asystem_awex.Prelude.Result.{Result, ok}
use asystem_awex.Common.Framing.{Bytes, Pickle, from_binary}
use asystem_awex.Common.Framing.Roundtrip.{from_binary-to_binary, length-to_binary}
use asystem_awex.MetaServer.{
  Value, Stored, raw, Json, MetaServer, Request, get_binary, put_binary, Response, client_max_size,
  read, handle, run, get_binary_handler, put_binary_handler, as_binary,
}
use asystem_awex.MetaServer.Frame.{writes, handle-frame, read-short}
use asystem_awex.MetaServer.Retry.{Failed, Keeps, Undisturbed, run-keeps, Sent-of}
use asystem_awex.MetaServer.Client.{
  ask, fetch_object, check_success, client_put_object, client_get_object,
}

-- Requests that leave a key alone, and failures in whose meantime only such requests are made.
abbrev pub Leave : Text → List Request → Type 0
Leave key requests = Each (λ request. writes request key ≡ false) requests

abbrev pub AllLeave : Text → List Failed → Type 0
AllLeave key failures = Each (λ failed. Leave key failed.meanwhile) failures

module _ {A J : Type 0} ⦃e : Eq A⦄ (pickle : Pickle (Value A)) (js : Json J) where
  -- The server holds something under a key.
  abbrev pub Holds : Text → Option (Stored A) → MetaServer A → Type 0
  Holds key found server = get server.storage key ≡ found

  pub Keeps-Holds :
      (key : Text) (found : Option (Stored A)) (request : Request)
      → writes request key ≡ false
      → Keeps pickle js (Holds key found) request
  Keeps-Holds key found request h server p = handle-frame pickle js request server key h ∙ p

  pub Each-Keeps :
      (key : Text) (found : Option (Stored A)) (requests : List Request)
      → Leave key requests
      → Each (Keeps pickle js (Holds key found)) requests
  Each-Keeps key found [] h = tt
  Each-Keeps key found (request ∷ requests) h =
      (Keeps-Holds key found request h.0, Each-Keeps key found requests h.1)

  pub Undisturbed-Holds :
      (key : Text) (found : Option (Stored A)) (failures : List Failed)
      → AllLeave key failures
      → Undisturbed pickle js (Holds key found) failures
  Undisturbed-Holds key found [] h = tt
  Undisturbed-Holds key found (failed ∷ failures) h =
      (Each-Keeps key found failed.meanwhile h.0, Undisturbed-Holds key found failures h.1)

  -- Nothing is asked of the state.
  abbrev Whatever : MetaServer A → Type 0
  Whatever server = Unit

  Each-Whatever : (requests : List Request) → Each (Keeps pickle js Whatever) requests
  Each-Whatever [] = tt
  Each-Whatever (request ∷ requests) = (λ s p. tt, Each-Whatever requests)

  Undisturbed-Whatever : (failures : List Failed) → Undisturbed pickle js Whatever failures
  Undisturbed-Whatever [] = tt
  Undisturbed-Whatever (failed ∷ failures) =
      (Each-Whatever failed.meanwhile, Undisturbed-Whatever failures)

  -- A request whose answer is read, when it and the others leave what the key holds.
  pub asked_keeping :
      {X : Type 0} (key : Text) (found : Option (Stored A)) (failures : List Failed)
      (request : Request) (read : Response J → Result X)
      → Keeps pickle js (Holds key found) request
      → AllLeave key failures
      → length failures < 10
      → (server : MetaServer A) → Holds key found server
      → (s : MetaServer A) × Holds key found s
        × ((ask pickle js failures request read server).0 ≡ read (handle pickle js request s).0)
  unfolding ask
  asked_keeping key found failures request read h others fewer server p =
      let a =
        Sent-of pickle js (Holds key found) failures request h
          (Undisturbed-Holds key found failures others) fewer server p in
      (a.before, a.kept, rw (ask, a.answer) refl)

  pub asked_while :
      {X : Type 0} (key : Text) (found : Option (Stored A)) (failures : List Failed)
      (request : Request) (read : Response J → Result X)
      → writes request key ≡ false
      → AllLeave key failures
      → length failures < 10
      → (server : MetaServer A) → Holds key found server
      → (s : MetaServer A) × Holds key found s
        × ((ask pickle js failures request read server).0 ≡ read (handle pickle js request s).0)
  asked_while key found failures request read h =
      asked_keeping key found failures request read (Keeps-Holds key found request h)

  -- A request that is answered in the end.
  pub asked :
      {X : Type 0} (failures : List Failed) (request : Request) (read : Response J → Result X)
      → length failures < 10
      → (server : MetaServer A)
      → (s : MetaServer A) × (ask pickle js failures request read server
          ≡ (read (handle pickle js request s).0, (handle pickle js request s).1))
  unfolding ask
  asked failures request read fewer server =
      let a =
        Sent-of pickle js Whatever failures request (λ s p. tt) (Undisturbed-Whatever failures)
          fewer server tt in
      (a.before, rw (ask, a.answer) refl)

  -- An object whose pickled data, with the four bytes of the length, the server takes, and that
  -- pickle reads back.
  abbrev pub Picklable : Value A → Type 0
  Picklable object =
      (length (pickle.dumps object) + 4 < client_max_size)
      × (pickle.loads (pickle.dumps object) ≡ ok object)

  fetch_object-raw :
      (object : Value A) (default_value : Option (Value A)) (key : Text) (bytes : Bytes)
      → from_binary pickle bytes ≡ ok object
      → (s : MetaServer A) → Holds key (some (raw bytes)) s
      → fetch_object pickle js default_value (handle pickle js (get_binary key) s).0
        ≡ ok (some object)
  unfolding fetch_object handle get_binary_handler as_binary
  fetch_object-raw object default_value key bytes reads s p =
      rw (handle, get_binary_handler, p, as_binary) (rw (fetch_object, reads) refl)

  -- put_object leaves the key with bytes that hold the object.
  client_put_object-stores :
      (key : Text) (object : Value A)
      → Picklable object
      → (failures : List Failed) → length failures < 10
      → (server : MetaServer A)
      → (frame : Bytes) × (from_binary pickle frame ≡ ok object)
        × ((client_put_object pickle js failures key object server).0 ≡ ok tt)
        × Holds key (some (raw frame)) (client_put_object pickle js failures key object server).1
  unfolding client_put_object check_success handle put_binary_handler
  client_put_object-stores key object (short, reads) failures few server =
      let (frame, made, back) = from_binary-to_binary pickle object [] (omega arith) reads in
      let size = length-to_binary pickle object frame made in
      let taken : read frame ≡ ok frame = read-short frame (omega (arith, size)) in
      let (s, put_it) =
        asked failures (put_binary key frame) (check_success pickle js) few server in
      let itself : list_eq.beq key key ≡ true = beq_refl key in
      (
        frame,
        ap (from_binary pickle) (sym (append-nil frame)) ∙ back,
        rw (client_put_object, made)
            (ap (λ r. r.0) put_it ∙ rw (handle, put_binary_handler, taken) refl),
        rw (client_put_object, made)
            (ap (λ r. get r.1.storage key) put_it
              ∙ rw (handle, put_binary_handler, taken)
                  (get-put s.storage key key (raw frame) ∙ rw (itself, if◌then◌else◌) refl)),
      )

  -- An object put with put_object and then read with get_object, by whichever clients, comes back,
  -- and not the default: up to nine attempts of either call may fail, served or not, with any
  -- requests of others in the meantime of the first call, and between the calls and in the meantime
  -- of the second any that do not write the key. The object's pickled data and the four bytes before
  -- it are below 2 GiB, which the server takes, and pickle reads the data back.
  pub get_object-put_object :
      (key : Text) (object : Value A) (default_value : Option (Value A))
      → Picklable object
      → (first second : List Failed) (between : List Request) → length first < 10
      → length second < 10
      → Leave key between
      → AllLeave key second
      → (server : MetaServer A)
      → ((client_put_object pickle js first key object server).0 ≡ ok tt)
        × ((client_get_object pickle js second key default_value
              (run pickle js between (client_put_object pickle js first key object server).1).1).0
            ≡ ok (some object))
  unfolding client_get_object
  get_object-put_object key object default_value picklable first second between few few' h others
        server =
      let (frame, holds, put_ok, found) =
        client_put_object-stores key object picklable first few server in
      let still =
        run-keeps pickle js (Holds key (some (raw frame))) between
          (Each-Keeps key (some (raw frame)) between h) _ found in
      let (s, kept, answer) =
        asked_while key (some (raw frame)) second (get_binary key)
          (fetch_object pickle js default_value) refl others few' _ still in
      (put_ok, answer ∙ fetch_object-raw object default_value key frame holds s kept)

-- ===== src/MetaServer.antt =====
-- The state and the handlers of MetaServer, awex/meta/meta_server.py: one function per route, from a
-- request and the state to the response and the next state. The middleware only wraps what escapes
-- a handler; where a handler catches an exception itself, the response with its status is written
-- out. A handler runs between two awaits without interruption: what is awaited is the request's
-- body, which is part of the request here; aiohttp refuses a body that reaches client_max_size. json
-- and pickle are parameters.
pub mod Frame
pub mod Ids
pub mod Retry
pub mod Client
pub mod Barrier
use asystem_awex.Prelude.{
  ℕ, ◌+◌, ◌≡◌, Bool, true, false, Option, none, some, List, [], ◌∷◌, ◌++◌, length, any, ltb, ◌*◌,
  ◌^◌, if◌then◌else◌,
}
use asystem_awex.Prelude.Equality.{Text, Eq, list_eq, nat_eq}
use asystem_awex.Prelude.Dict.{Dict, get, has, put, remove, keys}
use asystem_awex.Prelude.Result.{Result, ok, err, Fault, entity_too_large, guard, ◌>>=◌, ◌>>◌}
use asystem_awex.Common.Framing.{Bytes, Pickle, to_binary, from_binary}

-- A Python object: one that can lie in a set, or a set.
pub data Value (A : Type 0) : Type 0 where
  one : A → Value A
  many : List A → Value A

-- What storage holds under a key.
pub data Stored (A : Type 0) : Type 0 where
  raw : Bytes → Stored A
  collected : List A → Stored A

-- json.loads(… .decode("utf-8")) and json.dumps(…).encode("utf-8")
pub record Json (J : Type 0) : Type 0 where
  pub loads : Bytes → Result J
  pub dumps : J → Bytes

pub record MetaServer (A : Type 0) : Type 0 where
  pub storage : Dict Text (Stored A)
  pub id_counter : ℕ

pub data Request : Type 0 where
  get_binary delete get_json has_key : (key : Text) → Request
  put_binary add_object_to_set put_json : (key : Text) (body : Bytes) → Request
  list_keys health_check allocate_auto_grow_id : Request

pub data Body (J : Type 0) : Type 0 where
  message failure : Body J
  binary : Bytes → Body J
  json : J → Body J
  has_key_is : Bool → Body J
  keys_are : List Text → Body J
  storage_size_is : ℕ → Body J
  id_is : ℕ → Body J

pub record Response (J : Type 0) : Type 0 where
  pub status : ℕ
  pub body : Body J

abbrev pub respond : {J : Type 0} → Body J → Response J
respond body = record { status = 200; body = body }

-- {"success": False, …} with a status
abbrev pub fail : {J : Type 0} → ℕ → Response J
fail status = record { status = status; body = failure }

-- The branch behind `except Exception as e`.
abbrev pub caught : {A J : Type 0} → Result A → (A → Response J) → Response J
caught (err fault) k = fail 500
caught (ok a) k = k a

-- set.add
abbrev pub set_add : {A : Type 0} ⦃e : Eq A⦄ → List A → A → List A
set_add ⦃e⦄ xs a = if any (λ x. e.beq x a) xs then xs else xs ++ a ∷ []

-- client_max_size
abbrev pub client_max_size : ℕ
client_max_size = 2 * 1024 ^ 3

-- await request.read(): HTTPRequestEntityTooLarge from client_max_size on.
unfoldable pub read : Bytes → Result Bytes
read body = guard (ltb (length body) client_max_size) entity_too_large >> ok body

module _ {A J : Type 0} ⦃e : Eq A⦄ (pickle : Pickle (Value A)) (js : Json J) where
  abbrev pub Handled : Type 0
  Handled = Response J × MetaServer A

  -- What get_binary_handler returns of what it found: bytes as they are, a set framed.
  unfoldable pub as_binary : Stored A → Response J
  as_binary (raw bytes) = respond (binary bytes)
  as_binary (collected xs) = caught (to_binary pickle (many xs)) (λ bytes. respond (binary bytes))

  unfoldable pub get_binary_handler : Text → MetaServer A → Handled
  unfolding as_binary
  get_binary_handler key server =
      (elim (get server.storage key) [ none ↦ fail 404 | some found ↦ as_binary found ], server)

  -- What `read` raises escapes the handler, and the middleware answers with its status.
  unfoldable pub put_binary_handler : Text → Bytes → MetaServer A → Handled
  unfolding read
  put_binary_handler key body server = elim (read body) [
    | err fault ↦ (fail 413, server)
    | ok bytes ↦ (respond message, record server { storage = put server.storage key (raw bytes) })
  ]

  -- The object is added to what lies under the key, after an empty set has been put there if there
  -- was nothing. A set cannot be an element: it is unhashable, and the empty set stays behind. Bytes
  -- have no `add`.
  unfoldable pub add_to : Text → Value A → Option (Stored A) → MetaServer A → Handled
  add_to key (one a) none server = (
    respond message,
    record server { storage = put server.storage key (collected (set_add [] a)) },
  )
  add_to key (one a) (some (collected xs)) server = (
    respond message,
    record server { storage = put server.storage key (collected (set_add xs a)) },
  )
  add_to key (many xs) none server =
      (fail 500, record server { storage = put server.storage key (collected []) })
  add_to key (many ys) (some (collected xs)) server = (fail 500, server)
  add_to key value (some (raw bytes)) server = (fail 500, server)

  unfoldable pub add_object_to_set_handler : Text → Bytes → MetaServer A → Handled
  unfolding add_to read
  add_object_to_set_handler key body server = elim (read body >>= from_binary pickle) [
    | err fault ↦ (fail 500, server)
    | ok value ↦ add_to key value (get server.storage key) server
  ]

  pub as_json : Stored A → Response J
  as_json (raw bytes) = caught (js.loads bytes) (λ found. respond (json found))
  as_json (collected xs) = fail 500

  pub get_json_handler : Text → MetaServer A → Handled
  unfolding as_json
  get_json_handler key server =
      (elim (get server.storage key) [ none ↦ fail 404 | some found ↦ as_json found ], server)

  pub put_json_handler : Text → Bytes → MetaServer A → Handled
  unfolding read
  put_json_handler key body server = elim (read body >>= js.loads) [
    | err fault ↦ (fail 500, server)
    | ok found ↦
        (respond message, record server { storage = put server.storage key (raw (js.dumps found)) })
  ]

  -- MetaServer.delete raises ValueError for a missing key, which the handler turns into the 404.
  unfoldable pub delete_handler : Text → MetaServer A → Handled
  delete_handler key server =
      if has server.storage key
      then (respond message, record server { storage = remove server.storage key })
      else (fail 404, server)

  unfoldable pub has_key_handler : Text → MetaServer A → Handled
  has_key_handler key server = (respond (has_key_is (has server.storage key)), server)

  pub list_keys_handler : MetaServer A → Handled
  list_keys_handler server = (respond (keys_are (keys server.storage)), server)

  pub health_check_handler : MetaServer A → Handled
  health_check_handler server = (respond (storage_size_is (length server.storage)), server)

  pub allocate_handler : MetaServer A → Handled
  allocate_handler server =
      (respond (id_is server.id_counter), record server { id_counter = server.id_counter + 1 })

  -- The routes.
  unfoldable pub handle : Request → MetaServer A → Handled
  unfolding get_binary_handler put_binary_handler add_object_to_set_handler get_json_handler
      put_json_handler delete_handler has_key_handler list_keys_handler health_check_handler
      allocate_handler
  handle (get_binary key) server = get_binary_handler key server
  handle (put_binary key body) server = put_binary_handler key body server
  handle (add_object_to_set key body) server = add_object_to_set_handler key body server
  handle (get_json key) server = get_json_handler key server
  handle (put_json key body) server = put_json_handler key body server
  handle (delete key) server = delete_handler key server
  handle (has_key key) server = has_key_handler key server
  handle list_keys server = list_keys_handler server
  handle health_check server = health_check_handler server
  handle allocate_auto_grow_id server = allocate_handler server

  -- The server answers requests one after the other.
  unfoldable pub run : List Request → MetaServer A → List (Response J) × MetaServer A
  unfolding handle
  run [] server = ([], server)
  run (request ∷ requests) server =
      let (response, next) = handle request server in
      let (responses, last) = run requests next in (response ∷ responses, last)

  -- MetaServer.__init__
  pub init_server : MetaServer A
  init_server = record { storage = []; id_counter = 0 }

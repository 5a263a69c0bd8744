-- ===== src/MetaServer/Frame.antt =====
-- What a request leaves alone, and the ids that a run of requests allocates.
use asystem_awex.Prelude.{
  ◌+◌, ◌<◌, ◌≡◌, refl, sym, length, ltb, lt→ltb, ge→ltb, ◌≤◌, ◌∙◌, Bool, true, false, Option, none,
  some, [], arith, Bool-cases, inl, inr, if◌then◌else◌,
}
use asystem_awex.Prelude.Equality.{Text, Eq, list_eq, nat_eq}
use asystem_awex.Prelude.Dict.{get, has, put, get-put, get-remove}
use asystem_awex.Prelude.Result.{
  err, ok, Result-cases, entity_too_large, guard, guard-eq-ok, ok-injective, ◌>>=◌,
}
use asystem_awex.Common.Framing.{Bytes, Pickle, from_binary}
use asystem_awex.MetaServer.{
  Value, one, many, Stored, raw, collected, Json, MetaServer, Request, get_binary, delete, get_json,
  has_key, put_binary, add_object_to_set, put_json, list_keys, health_check, allocate_auto_grow_id,
  client_max_size, add_to, read, handle, get_binary_handler, put_binary_handler,
  add_object_to_set_handler, get_json_handler, put_json_handler, delete_handler, has_key_handler,
  list_keys_handler, health_check_handler, allocate_handler,
}

-- A body below the limit is read.
pub read-short : (body : Bytes) → length body < client_max_size → read body ≡ ok body
unfolding read
read-short body short =
    let fits : ltb (length body) client_max_size ≡ true = lt→ltb _ _ short in rw (fits, guard) refl

-- A body that reaches the limit is refused.
pub read-long : (body : Bytes) → client_max_size ≤ length body → read body ≡ err entity_too_large
unfolding read
read-long body long =
    let over : ltb (length body) client_max_size ≡ false = ge→ltb _ _ long in rw (over, guard) refl

-- A body that is read is as it was sent.
pub read-same : (body : Bytes) {found : Bytes} → read body ≡ ok found → found ≡ body
unfolding read
read-same body h =
    let (fits, same) =
      guard-eq-ok (ltb (length body) client_max_size) entity_too_large (ok body) h in
    sym (ok-injective same)

-- Whether a request may write a key.
abbrev pub writes : Request → Text → Bool
writes (put_binary key body) j = list_eq.beq key j
writes (add_object_to_set key body) j = list_eq.beq key j
writes (put_json key body) j = list_eq.beq key j
writes (delete key) j = list_eq.beq key j
writes _ j = false

abbrev pub allocates : Request → Bool
allocates allocate_auto_grow_id = true
allocates _ = false

module _ {A J : Type 0} ⦃e : Eq A⦄ (pickle : Pickle (Value A)) (js : Json J) where
  -- What a handler may do to a key, and to the counter.
  abbrev Effect : MetaServer A → MetaServer A → Text → (own ids : Bool) → Type 0
  Effect old new j own ids =
      (own ≡ false → get new.storage j ≡ get old.storage j)
      × (new.id_counter ≡ old.id_counter + (if ids then 1 else 0))

  nothing : (server : MetaServer A) (j : Text) (own : Bool) → Effect server server j own false
  nothing server j own = (λ h. refl, omega arith)

  a_put :
      (server : MetaServer A) (key j : Text) (v : Stored A)
      → Effect server
          (record server { storage = put server.storage key v })
          j
          (list_eq.beq key j)
          false
  a_put server key j v =
      (λ h. get-put server.storage key j v ∙ rw (h, if◌then◌else◌) refl, omega arith)

  add_to-Effect :
      (key : Text) (value : Value A) (found : Option (Stored A)) (server : MetaServer A) (j : Text)
      → Effect server (add_to pickle js key value found server).1 j (list_eq.beq key j) false
  unfolding add_to
  add_to-Effect key (one a) none server j = a_put server key j _
  add_to-Effect key (one a) (some (collected xs)) server j = a_put server key j _
  add_to-Effect key (many xs) none server j = a_put server key j _
  add_to-Effect key (many ys) (some (collected xs)) server j = nothing server j _
  add_to-Effect key (one a) (some (raw bytes)) server j = nothing server j _
  add_to-Effect key (many a) (some (raw bytes)) server j = nothing server j _

  handle-Effect :
      (request : Request) (server : MetaServer A) (j : Text)
      → Effect server (handle pickle js request server).1 j (writes request j) (allocates request)
  unfolding handle get_binary_handler put_binary_handler add_object_to_set_handler get_json_handler
      put_json_handler delete_handler has_key_handler list_keys_handler health_check_handler
      allocate_handler
  handle-Effect (get_binary key) server j = nothing server j _
  handle-Effect (put_binary key body) server j = elim (Result-cases (read body)) [
    | inl (bytes, t) ↦ rw (handle, put_binary_handler, t) (a_put server key j _)
    | inr (fault, t) ↦ rw (handle, put_binary_handler, t) (nothing server j _)
  ]
  handle-Effect (add_object_to_set key body) server j =
      elim (Result-cases (read body >>= from_binary pickle)) [
        | inl (value, t) ↦
            rw (handle, add_object_to_set_handler, t)
              (add_to-Effect key value (get server.storage key) server j)
        | inr (fault, t) ↦ rw (handle, add_object_to_set_handler, t) (nothing server j _)
      ]
  handle-Effect (get_json key) server j = nothing server j _
  handle-Effect (put_json key body) server j = elim (Result-cases (read body >>= js.loads)) [
    | inl (found, t) ↦ rw (handle, put_json_handler, t) (a_put server key j _)
    | inr (fault, t) ↦ rw (handle, put_json_handler, t) (nothing server j _)
  ]
  handle-Effect (delete key) server j = elim (Bool-cases (has server.storage key)) [
    | inl t ↦
        rw (handle, delete_handler, t, if◌then◌else◌)
          (λ h. get-remove server.storage key j ∙ rw (h, if◌then◌else◌) refl, omega arith)
    | inr t ↦ rw (handle, delete_handler, t, if◌then◌else◌) (nothing server j _)
  ]
  handle-Effect (has_key key) server j = nothing server j _
  handle-Effect list_keys server j = nothing server j _
  handle-Effect health_check server j = nothing server j _
  handle-Effect allocate_auto_grow_id server j = (λ h. refl, omega arith)

  -- A request leaves what every key holds that it does not write: each writes one key at most, the
  -- one that it names.
  pub handle-frame :
      (request : Request) (server : MetaServer A) (j : Text)
      → writes request j ≡ false
      → get (handle pickle js request server).1.storage j ≡ get server.storage j
  handle-frame request server j h = (handle-Effect request server j).0 h

  -- The counter of the ids grows by one where a request allocates, and stays otherwise.
  pub handle-counter :
      (request : Request) (server : MetaServer A)
      → (handle pickle js request server).1.id_counter
        ≡ server.id_counter + (if allocates request then 1 else 0)
  handle-counter request server = (handle-Effect request server []).1

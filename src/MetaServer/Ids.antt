-- ===== src/MetaServer/Ids.antt =====
-- The ids that allocate_auto_grow_id gives out over a run of requests.
use asystem_awex.Prelude.{
  ℕ, zero, suc, ◌+◌, ◌≡◌, refl, ap, ap₂, ◌∙◌, Bool, true, false, Option, none, some, List, [], ◌∷◌,
  ◌++◌, range, count_by, arith, Bool-cases, Option-cases, inl, inr, if◌then◌else◌,
}
use asystem_awex.Prelude.Equality.{Text, Eq, list_eq, nat_eq}
use asystem_awex.Prelude.Dict.{get, has}
use asystem_awex.Prelude.Result.{Result-cases, ◌>>=◌}
use asystem_awex.Common.Framing.{Pickle, to_binary, from_binary}
use asystem_awex.MetaServer.{
  Value, one, many, Stored, raw, collected, Json, MetaServer, Request, get_binary, delete, get_json,
  has_key, put_binary, add_object_to_set, put_json, list_keys, health_check, allocate_auto_grow_id,
  Body, id_is, Response, read, add_to, handle, run, as_binary, as_json, get_binary_handler,
  put_binary_handler, add_object_to_set_handler, get_json_handler, put_json_handler, delete_handler,
  has_key_handler, list_keys_handler, health_check_handler, allocate_handler,
}
use asystem_awex.MetaServer.Frame.{allocates, handle-counter}

-- The id in a response.
abbrev pub ids_in : {J : Type 0} → Body J → List ℕ
ids_in (id_is n) = n ∷ []
ids_in _ = []

range-append : (start m n : ℕ) → range start m ++ range (start + m) n ≡ range start (m + n)
range-append start zero n = ap₂ range (omega arith) (omega arith)
range-append start (suc m) n =
    let here : start + suc m ≡ start + 1 + m = omega arith in
    let size : suc m + n ≡ suc (m + n) = omega arith in
    rw (here, size) (ap (◌∷◌ start) (range-append (start + 1) m n))

one_more : (here : Bool) (n : ℕ) → (if here then 1 else 0) + n ≡ (if here then suc n else n)
one_more true n = omega arith
one_more false n = omega arith

module _ {A J : Type 0} ⦃e : Eq A⦄ (pickle : Pickle (Value A)) (js : Json J) where
  pub ids : List (Response J) → List ℕ
  ids [] = []
  ids (r ∷ responses) = ids_in r.body ++ ids responses

  as_binary-no_id : (found : Stored A) → ids_in (as_binary pickle js found).body ≡ []
  unfolding as_binary
  as_binary-no_id (raw bytes) = refl
  as_binary-no_id (collected xs) = elim (Result-cases (to_binary pickle (many xs))) [
    | inl (bytes, t) ↦ rw (as_binary, t) refl
    | inr (fault, t) ↦ rw (as_binary, t) refl
  ]

  as_json-no_id : (found : Stored A) → ids_in (as_json pickle js found).body ≡ []
  unfolding as_json
  as_json-no_id (raw bytes) = elim (Result-cases (js.loads bytes)) [
    | inl (found, t) ↦ rw (as_json, t) refl
    | inr (fault, t) ↦ rw (as_json, t) refl
  ]
  as_json-no_id (collected xs) = refl

  add_to-no_id :
      (key : Text) (value : Value A) (found : Option (Stored A)) (server : MetaServer A)
      → ids_in (add_to pickle js key value found server).0.body ≡ []
  unfolding add_to
  add_to-no_id key (one a) none server = refl
  add_to-no_id key (one a) (some (collected xs)) server = refl
  add_to-no_id key (many xs) none server = refl
  add_to-no_id key (many ys) (some (collected xs)) server = refl
  add_to-no_id key (one a) (some (raw bytes)) server = refl
  add_to-no_id key (many a) (some (raw bytes)) server = refl

  handle-ids :
      (request : Request) (server : MetaServer A)
      → ids_in (handle pickle js request server).0.body
        ≡ range server.id_counter (if allocates request then 1 else 0)
  unfolding handle get_binary_handler put_binary_handler add_object_to_set_handler get_json_handler
      put_json_handler delete_handler has_key_handler list_keys_handler health_check_handler
      allocate_handler
  handle-ids (get_binary key) server = elim (Option-cases (get server.storage key)) [
    | inl t ↦ rw (handle, get_binary_handler, t) refl
    | inr (v, t) ↦ rw (handle, get_binary_handler, t) (as_binary-no_id v)
  ]
  handle-ids (put_binary key body) server = elim (Result-cases (read body)) [
    | inl (bytes, t) ↦ rw (handle, put_binary_handler, t) refl
    | inr (fault, t) ↦ rw (handle, put_binary_handler, t) refl
  ]
  handle-ids (add_object_to_set key body) server =
      elim (Result-cases (read body >>= from_binary pickle)) [
        | inl (value, t) ↦
            rw (handle, add_object_to_set_handler, t)
              (add_to-no_id key value (get server.storage key) server)
        | inr (fault, t) ↦ rw (handle, add_object_to_set_handler, t) refl
      ]
  handle-ids (get_json key) server = elim (Option-cases (get server.storage key)) [
    | inl t ↦ rw (handle, get_json_handler, t) refl
    | inr (v, t) ↦ rw (handle, get_json_handler, t) (as_json-no_id v)
  ]
  handle-ids (put_json key body) server = elim (Result-cases (read body >>= js.loads)) [
    | inl (found, t) ↦ rw (handle, put_json_handler, t) refl
    | inr (fault, t) ↦ rw (handle, put_json_handler, t) refl
  ]
  handle-ids (delete key) server = elim (Bool-cases (has server.storage key)) [
    | inl t ↦ rw (handle, delete_handler, t, if◌then◌else◌) refl
    | inr t ↦ rw (handle, delete_handler, t, if◌then◌else◌) refl
  ]
  handle-ids (has_key key) server = refl
  handle-ids list_keys server = refl
  handle-ids health_check server = refl
  handle-ids allocate_auto_grow_id server = refl

  -- Whatever else is asked of the server in between: the ids that it gives out are those from its
  -- counter on, one after the other, as many as are asked for, so that no id is given out twice.
  pub run-ids :
      (requests : List Request) (server : MetaServer A)
      → ids (run pickle js requests server).0
        ≡ range server.id_counter (count_by allocates requests)
  unfolding run ids
  run-ids [] server = refl
  run-ids (request ∷ requests) server =
      ap₂ ◌++◌ (handle-ids request server) (
        run-ids requests (handle pickle js request server).1
        ∙ ap (λ c. range c (count_by allocates requests)) (handle-counter pickle js request server))
      ∙ range-append server.id_counter (if allocates request then 1 else 0)
          (count_by allocates requests)
      ∙ ap (range server.id_counter) (one_more (allocates request) (count_by allocates requests))

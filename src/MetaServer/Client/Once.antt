-- ===== src/MetaServer/Client/Once.antt =====
-- The requests of a client whose first attempt is answered, and the sets that they change and read.
use asystem_awex.Prelude.{
  ◌≡◌, refl, ap, ◌∙◌, Option, none, some, List, [], ◌∷◌, ◌⊎◌, inl, inr, Bool-cases, Option-cases,
  if◌then◌else◌,
}
use asystem_awex.Prelude.Equality.{Text, Eq, list_eq, nat_eq, beq_refl}
use asystem_awex.Prelude.Dict.{get, has, get-put, get-remove, get-missing}
use asystem_awex.Prelude.Result.{ok, Result-cases, ◌>>=◌}
use asystem_awex.MetaServer.Frame.{read-same}
use asystem_awex.Common.Framing.{Bytes, Pickle, to_binary, from_binary}
use asystem_awex.Common.Framing.Roundtrip.{from_binary-framed}
use asystem_awex.MetaServer.{
  Value, one, many, Stored, raw, collected, Json, MetaServer, delete, add_object_to_set, handle,
  get_binary_handler, as_binary, delete_handler, add_object_to_set_handler, add_to, set_add, read,
}
use asystem_awex.MetaServer.Retry.{send-at_once}
use asystem_awex.MetaServer.Client.{
  ask, fetch_object, client_get_object, client_delete, delete_if_exists,
}

-- The set under the key after an element is added to it.
abbrev pub grown : {A : Type 0} ⦃e : Eq A⦄ → Option (Stored A) → A → Option (Stored A)
grown none a = some (collected (a ∷ []))
grown (some (collected xs)) a = some (collected (set_add xs a))
grown (some (raw bytes)) a = some (raw bytes)

module _ {A J : Type 0} ⦃e : Eq A⦄ (pickle : Pickle (Value A)) (js : Json J) where
  -- After a deletion nothing lies under the key.
  pub delete_if_exists-none :
      (key : Text) (server : MetaServer A)
      → get (delete_if_exists pickle js [] key server).1.storage key ≡ none
  unfolding delete_if_exists client_delete ask handle delete_handler
  delete_if_exists-none key server =
      rw (delete_if_exists, client_delete, ask, send-at_once pickle js (delete key) server)
        (elim (Bool-cases (has server.storage key)) [
          | inl t ↦
              rw (delete_handler, t, if◌then◌else◌)
                (get-remove server.storage key key ∙ rw (beq_refl key, if◌then◌else◌) refl)
          | inr t ↦ rw (delete_handler, t, if◌then◌else◌) (get-missing server.storage key t)
        ])

  add_to-grown :
      (key : Text) (a : A) (found : Option (Stored A)) (server : MetaServer A)
      → get server.storage key ≡ found
      → get (add_to pickle js key (one a) found server).1.storage key ≡ grown found a
  unfolding add_to
  add_to-grown key a none server h =
      get-put server.storage key key _ ∙ rw (beq_refl key, if◌then◌else◌) refl
  add_to-grown key a (some (collected xs)) server h =
      get-put server.storage key key _ ∙ rw (beq_refl key, if◌then◌else◌) refl
  add_to-grown key a (some (raw bytes)) server h = h

  -- An element that is added grows the set, unless the server refuses the body, and then the key is as
  -- it was.
  pub add_object_to_set-grown :
      (key : Text) (a : A) (frame : Bytes)
      → from_binary pickle frame ≡ ok (one a)
      → (server : MetaServer A)
      → (get (handle pickle js (add_object_to_set key frame) server).1.storage key
          ≡ grown (get server.storage key) a)
        ⊎ (get (handle pickle js (add_object_to_set key frame) server).1.storage key
            ≡ get server.storage key)
  unfolding handle add_object_to_set_handler add_to
  add_object_to_set-grown key a frame reads server = elim (Result-cases (read frame)) [
    | inl (bytes, t) ↦
        let taken =
          ap (λ r. r >>= from_binary pickle) t
          ∙ ap (from_binary pickle) (read-same frame t)
          ∙ reads in
        inl (
          rw (handle, add_object_to_set_handler, taken)
            (add_to-grown key a (get server.storage key) server refl))
    | inr (fault, t) ↦
        let refused = ap (λ r. r >>= from_binary pickle) t in
        inr (rw (handle, add_object_to_set_handler, refused) refl)
  ]

  -- What get_object reads as a set is one that the server holds, or the default.
  pub get_object-set :
      (key : Text) (xs : List A)
      → ((zs : List A) → pickle.loads (pickle.dumps (many zs)) ≡ ok (many zs))
      → (server : MetaServer A)
      → (client_get_object pickle js [] key (some (many [])) server).0 ≡ ok (some (many xs))
      → ((get server.storage key ≡ none) × (xs ≡ []))
        ⊎ (get server.storage key ≡ some (collected xs))
        ⊎ ((bytes : Bytes) × (get server.storage key ≡ some (raw bytes)))
  unfolding client_get_object ask handle get_binary_handler fetch_object as_binary
  get_object-set key xs reads server h = elim (Option-cases (get server.storage key)) [
    | inl t ↦
        let h' =
          rw (client_get_object, ask, send-at_once, handle, get_binary_handler, t, fetch_object) at
            h in
        inl (t, cc)
    | inr (raw bytes, t) ↦ inr (inr (bytes, t))
    | inr (collected ys, t) ↦ elim (Result-cases (to_binary pickle (many ys))) [
      | inl (frame, made) ↦
          let back = from_binary-framed pickle (many ys) frame (reads ys) made in
          let h' =
            rw
              (
                client_get_object, ask, send-at_once, handle, get_binary_handler, t, as_binary,
                made, fetch_object, back,
              )
              at h in
          let same : ys ≡ xs = cc in inr (inl (t ∙ ap (λ zs. some (collected zs)) same))
      | inr (fault, made) ↦
          let h' =
            rw
              (
                client_get_object, ask, send-at_once, handle, get_binary_handler, t, as_binary,
                made, fetch_object,
              )
              at h in
          absurd (cc)
    ]
  ]

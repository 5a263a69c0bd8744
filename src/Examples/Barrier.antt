-- ===== src/Examples/Barrier.antt =====
-- Two ranks at the barrier, and how it goes wrong for the second.
use asystem_awex.Prelude.{ℕ, zero, suc, ◌<◌, ◌≡◌, ◌⊎◌, refl, true, false, [], ◌∷◌, arith}
use asystem_awex.Prelude.Equality.{list_eq, nat_eq}
use asystem_awex.Common.Framing.{Bytes, to_binary, from_binary, pack, unpack}
use asystem_awex.MetaServer.{
  MetaServer, handle, add_object_to_set, add_object_to_set_handler, add_to, read,
  get_binary_handler, as_binary, delete_handler,
}
use asystem_awex.MetaServer.Retry.{retry, send}
use asystem_awex.MetaServer.Client.{
  ask, client_get_object, fetch_object, delete_if_exists, client_delete,
}
use asystem_awex.MetaServer.Barrier.{
  Place, before, adding, waiting, passed, timed_out, Barrier, move, enter, add_again, add, pass,
  time_out, clear, Reach, here, next,
}
use asystem_awex.MetaServer.Barrier.Safety.{came, barrier_lem}
use asystem_awex.MetaServer.Barrier.Stuck.{to_add, deleted_set-blocks}
use asystem_awex.Examples.MetaServer.{small_pickle, small_pickle-reads, plain_json, weights_key}

abbrev frame_of : ℕ → Bytes
frame_of rank = 0 ∷ 0 ∷ 0 ∷ 2 ∷ 0 ∷ rank ∷ []

abbrev added : ℕ → MetaServer ℕ → MetaServer ℕ
added rank server =
    (handle small_pickle plain_json (add_object_to_set weights_key (frame_of rank)) server).1

abbrev empty_server : MetaServer ℕ
empty_server = record { storage = []; id_counter = 0 }

abbrev nobody : ℕ → Place
nobody r = before

abbrev start : Barrier
start = record { server = empty_server; place = nobody }

-- Both have been counted, rank 0 twice.
abbrev counted : MetaServer ℕ
counted = added 1 (added 0 (added 0 empty_server))

abbrev both_wait : ℕ → Place
both_wait = move (move (move (move nobody 0 adding) 1 adding) 0 waiting) 1 waiting

abbrev first_passed : Barrier
first_passed = record { server = counted; place = move both_wait 0 passed }

first_passed-Reach : Reach small_pickle plain_json weights_key 2 start first_passed
unfolding move to_binary pack handle add_object_to_set_handler add_to read from_binary unpack
    client_get_object ask send retry get_binary_handler as_binary fetch_object
first_passed-Reach =
    next
      (next
        (next
          (next (next (next here (enter 0 (omega arith) refl)) (enter 1 (omega arith) refl))
            (add_again 0 (frame_of 0) (omega arith) refl refl))
          (add 0 (frame_of 0) (omega arith) refl refl))
        (add 1 (frame_of 1) (omega arith) refl refl))
      (pass 0 (0 ∷ 1 ∷ []) refl refl (omega arith))

barrier_example : came (first_passed.place 1) ≡ true
unfolding move
barrier_example =
    barrier_lem small_pickle plain_json weights_key 2 start first_passed small_pickle-reads refl
      (λ r. refl) first_passed-Reach 0 refl 1 (omega arith)

-- Rank 0 deletes the set before rank 1 has polled it.
abbrev set_deleted : Barrier
set_deleted = record {
  server = (delete_if_exists small_pickle plain_json [] weights_key counted).1;
  place = first_passed.place;
}

set_deleted-Reach : Reach small_pickle plain_json weights_key 2 start set_deleted
unfolding move
set_deleted-Reach = next first_passed-Reach (clear refl)

nobody_to_add : (r : ℕ) → r < 2 → to_add (set_deleted.place r) ≡ false
unfolding move
nobody_to_add zero h = refl
nobody_to_add (suc zero) h = refl
nobody_to_add (suc (suc r)) h = absurd (omega arith)

abbrev given_up : Barrier
given_up = record { server = set_deleted.server; place = move set_deleted.place 1 timed_out }

blocked_example : (given_up.place 1 ≡ waiting) ⊎ (given_up.place 1 ≡ timed_out)
unfolding move delete_if_exists client_delete ask send retry handle delete_handler
    add_object_to_set_handler add_to read from_binary unpack
blocked_example =
    deleted_set-blocks small_pickle plain_json weights_key 2 set_deleted given_up 1
      small_pickle-reads (omega arith) refl nobody_to_add refl (next here (time_out 1 refl))

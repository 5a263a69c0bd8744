-- ===== src/MetaServer/Barrier.antt =====
-- `barrier` of MetaServerClient, awex/meta/meta_server.py, as all the ranks run it at once: each adds
-- its rank to the set under the key, polls the set until it has world_size elements, and rank 0 then
-- deletes it. A step is one request of one rank, or what another client asks, so that every order in
-- which the server may see them is a sequence of steps. An attempt may be repeated, as retry does:
-- served and then counted as failed.
pub mod Safety
pub mod Stuck
use asystem_awex.Prelude.{
  ℕ, ◌<◌, ◌≤◌, ◌≡◌, Bool, true, false, Option, none, some, List, [], length, ◌==◌, if◌then◌else◌,
}
use asystem_awex.Prelude.Equality.{Text, nat_eq}
use asystem_awex.Prelude.Result.{Result, ok}
use asystem_awex.Common.Framing.{Bytes, Pickle, to_binary}
use asystem_awex.MetaServer.{Value, one, many, Json, MetaServer, Request, add_object_to_set, handle}
use asystem_awex.MetaServer.Frame.{writes}
use asystem_awex.MetaServer.Client.{client_get_object, delete_if_exists}

-- Where a rank is: before the call, in add_object_to_set, in wait_set_until_size, after the call, or
-- out of it with the TimeoutError.
pub data Place : Type 0 where
  before adding waiting passed timed_out : Place

pub record Barrier : Type 0 where
  pub server : MetaServer ℕ
  pub place : ℕ → Place

-- A rank goes on.
unfoldable pub move : (ℕ → Place) → ℕ → Place → ℕ → Place
move place rank to r = if r == rank then to else place r

module _ {J : Type 0} (pickle : Pickle (Value ℕ)) (js : Json J) (key : Text) (world_size : ℕ) where
  pub data Step (s : Barrier) : Barrier → Type 0 where
    -- barrier(key, rank, world_size, timeout)
    enter :
        (rank : ℕ)
        → rank < world_size
        → s.place rank ≡ before
        → Step s (record { server = s.server; place = move s.place rank adding })
    -- self.add_object_to_set(key, (rank)), an attempt that is served and not answered
    add_again :
        (rank : ℕ) (frame : Bytes)
        → rank < world_size
        → s.place rank ≡ adding
        → to_binary pickle (one rank) ≡ ok frame
        → Step s (record {
          server = (handle pickle js (add_object_to_set key frame) s.server).1;
          place = s.place;
        })
    -- the same with its answer
    add :
        (rank : ℕ) (frame : Bytes)
        → rank < world_size
        → s.place rank ≡ adding
        → to_binary pickle (one rank) ≡ ok frame
        → Step s (record {
          server = (handle pickle js (add_object_to_set key frame) s.server).1;
          place = move s.place rank waiting;
        })
    -- if len(current_set) >= size: break
    pass :
        (rank : ℕ) (current_set : List ℕ)
        → s.place rank ≡ waiting
        → (client_get_object pickle js [] key (some (many [])) s.server).0
          ≡ ok (some (many current_set))
        → world_size ≤ length current_set
        → Step s (record { server = s.server; place = move s.place rank passed })
    -- raise TimeoutError
    time_out :
        (rank : ℕ)
        → s.place rank ≡ waiting
        → Step s (record { server = s.server; place = move s.place rank timed_out })
    -- if rank == 0: self.delete_if_exists(key)
    clear :
        s.place 0 ≡ passed
        → Step s
            (record { server = (delete_if_exists pickle js [] key s.server).1; place = s.place })
    -- another request, of whoever, for another key
    other :
        (request : Request)
        → writes request key ≡ false
        → Step s (record { server = (handle pickle js request s.server).1; place = s.place })

  pub data Reach (s : Barrier) : Barrier → Type 0 where
    here : Reach s s
    next : {t u : Barrier} → Reach s t → Step t u → Reach s u

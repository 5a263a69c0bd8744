-- ===== src/MetaServer/Barrier/Safety.antt =====
-- Nobody leaves the barrier with success before everybody has come to it.
use asystem_awex.Prelude.{
  ℕ, ◌<◌, ◌≤◌, ◌≡◌, refl, subst, ◌||◌, Bool, true, false, Option, none, some, List, [], ◌∷◌, length,
  any, Each, Each-append, arith, ◌⊎◌, inl, inr, Bool-cases, ◌==◌, ==_iff, if◌then◌else◌,
}
use asystem_awex.Prelude.Equality.{Text, nat_eq, list_eq}
use asystem_awex.Prelude.Dict.{get}
use asystem_awex.Prelude.Distinct.{IsDistinct, append_one-IsDistinct, any-distinct}
use asystem_awex.Prelude.Result.{ok}
use asystem_awex.Common.Framing.{Bytes, Pickle, to_binary}
use asystem_awex.Common.Framing.Roundtrip.{from_binary-framed}
use asystem_awex.MetaServer.{
  Value, one, many, Stored, raw, collected, Json, add_object_to_set, handle,
}
use asystem_awex.MetaServer.Frame.{handle-frame}
use asystem_awex.MetaServer.Client.Once.{
  delete_if_exists-none, grown, add_object_to_set-grown, get_object-set,
}
use asystem_awex.MetaServer.Barrier.{
  Place, before, adding, waiting, passed, timed_out, Barrier, move, Step, enter, add_again, add,
  pass, time_out, clear, other, Reach, here, next,
}

-- Whether a rank has called barrier.
abbrev pub came : Place → Bool
came before = false
came _ = true

-- What the server may hold under the key: distinct ranks below world_size that have come.
abbrev pub Sound : (world_size : ℕ) → (ℕ → Place) → Option (Stored ℕ) → Type 0
Sound world_size place none = Unit
Sound world_size place (some (raw bytes)) = false ≡ true
Sound world_size place (some (collected ranks)) =
    IsDistinct ranks × Each (λ r. r < world_size) ranks × Each (λ r. came (place r) ≡ true) ranks

move-came :
    (place : ℕ → Place) (rank : ℕ) (to : Place) (r : ℕ)
    → came to ≡ true
    → came (place r) ≡ true
    → came (move place rank to r) ≡ true
unfolding move
move-came place rank to r h k = elim (Bool-cases (r == rank)) [
  | inl t ↦ rw (move, t, if◌then◌else◌) h
  | inr t ↦ rw (move, t, if◌then◌else◌) k
]

move-Each :
    (place : ℕ → Place) (rank : ℕ) (to : Place) (ranks : List ℕ)
    → came to ≡ true
    → Each (λ r. came (place r) ≡ true) ranks
    → Each (λ r. came (move place rank to r) ≡ true) ranks
move-Each place rank to [] h k = tt
move-Each place rank to (r ∷ ranks) h k =
    (move-came place rank to r h k.0, move-Each place rank to ranks h k.1)

move-Sound :
    (world_size : ℕ) (place : ℕ → Place) (rank : ℕ) (to : Place)
    → came to ≡ true
    → (found : Option (Stored ℕ)) → Sound world_size place found
    → Sound world_size (move place rank to) found
move-Sound world_size place rank to h none s = tt
move-Sound world_size place rank to h (some (raw bytes)) s = s
move-Sound world_size place rank to h (some (collected ranks)) (d, b, c) =
    (d, b, move-Each place rank to ranks h c)

grown-Sound :
    (world_size : ℕ) (place : ℕ → Place) (rank : ℕ)
    → rank < world_size
    → came (place rank) ≡ true
    → (found : Option (Stored ℕ)) → Sound world_size place found
    → Sound world_size place (grown found rank)
grown-Sound world_size place rank below h none s = ((refl, tt), (below, tt), (h, tt))
grown-Sound world_size place rank below h (some (raw bytes)) s = s
grown-Sound world_size place rank below h (some (collected ranks)) (d, b, c) =
    elim (Bool-cases (any (λ x. x == rank) ranks)) [
      | inl t ↦ rw (t, if◌then◌else◌) (d, b, c)
      | inr t ↦
          rw (t, if◌then◌else◌)
            (
              append_one-IsDistinct rank ranks t d,
              Each-append (λ r. r < world_size) ranks (rank ∷ []) b (below, tt),
              Each-append (λ r. came (place r) ≡ true) ranks (rank ∷ []) c (h, tt),
            )
    ]

Each-any : (P : ℕ → Type 0) (n : ℕ) (xs : List ℕ) → any (λ y. y == n) xs ≡ true → Each P xs → P n
Each-any P n [] h k = absurd (cc)
Each-any P n (x ∷ xs) h k = elim (Bool-cases (x == n)) [
  | inl t ↦ subst P ((==_iff x n).0 t) k.0
  | inr t ↦ Each-any P n xs (rw (t, ◌||◌) at h) k.1
]

-- A full set holds every rank.
all_came :
    (world_size : ℕ) (place : ℕ → Place) (ranks : List ℕ)
    → Sound world_size place (some (collected ranks))
    → world_size ≤ length ranks
    → (r : ℕ) → r < world_size
    → came (place r) ≡ true
all_came world_size place ranks (d, b, c) full r below =
    Each-any (λ q. came (place q) ≡ true) r ranks (any-distinct world_size ranks d b full r below) c

module _ {J : Type 0} (pickle : Pickle (Value ℕ)) (js : Json J) (key : Text) (world_size : ℕ) where
  -- What every reachable state has.
  pub record Invariant (s : Barrier) : Type 0 where
    pub sound : Sound world_size s.place (get s.server.storage key)
    pub met :
        (rank : ℕ) → s.place rank ≡ passed → (r : ℕ) → r < world_size → came (s.place r) ≡ true

  -- A move to a place other than `passed`.
  move-met :
      (s : Barrier) (who : ℕ) (to : Place)
      → Invariant s
      → came to ≡ true
      → (to ≡ passed → (r : ℕ) → r < world_size → came (s.place r) ≡ true)
      → (rank : ℕ) → move s.place who to rank ≡ passed
      → (r : ℕ) → r < world_size
      → came (move s.place who to r) ≡ true
  unfolding move
  move-met s who to i h k rank is r below =
      move-came s.place who to r h (elim (Bool-cases (rank == who)) [
        | inl t ↦ k (rw (move, t, if◌then◌else◌) at is) r below
        | inr t ↦ i.met rank (rw (move, t, if◌then◌else◌) at is) r below
      ])

  add-Sound :
      (s : Barrier) (rank : ℕ) (frame : Bytes)
      → ((v : Value ℕ) → pickle.loads (pickle.dumps v) ≡ ok v)
      → Invariant s
      → rank < world_size
      → s.place rank ≡ adding
      → to_binary pickle (one rank) ≡ ok frame
      → Sound world_size s.place
          (get (handle pickle js (add_object_to_set key frame) s.server).1.storage key)
  add-Sound s rank frame reads i below at_adding made =
      let held = from_binary-framed pickle (one rank) frame (reads (one rank)) made in
      let has_come : came (s.place rank) ≡ true = rw at_adding refl in
      elim (add_object_to_set-grown pickle js key rank frame held s.server) [
        | inl t ↦
            rw t (
              grown-Sound world_size s.place rank below has_come (get s.server.storage key) i.sound)
        | inr t ↦ rw t i.sound
      ]

  pass-all :
      (s : Barrier) (ranks : List ℕ)
      → Invariant s
      → ((get s.server.storage key ≡ none) × (ranks ≡ []))
        ⊎ (get s.server.storage key ≡ some (collected ranks))
        ⊎ ((bytes : Bytes) × (get s.server.storage key ≡ some (raw bytes)))
      → world_size ≤ length ranks
      → (r : ℕ) → r < world_size
      → came (s.place r) ≡ true
  pass-all s ranks i (inl (t, e)) full r below =
      let none_wanted : world_size ≤ length {A = ℕ} [] =
        subst (λ x. world_size ≤ length x) e full in
      absurd (omega arith)
  pass-all s ranks i (inr (inl t)) full r below =
      all_came world_size s.place ranks (subst (Sound world_size s.place) t i.sound) full r below
  pass-all s ranks i (inr (inr (bytes, t))) full r below =
      let never : false ≡ true = subst (Sound world_size s.place) t i.sound in absurd (cc)

  pub Step-Invariant :
      {s t : Barrier}
      → ((v : Value ℕ) → pickle.loads (pickle.dumps v) ≡ ok v)
      → Step pickle js key world_size s t
      → Invariant s
      → Invariant t
  Step-Invariant {s} reads (enter rank below at_before) i = record {
    sound = move-Sound world_size s.place rank adding refl _ i.sound;
    met = move-met s rank adding i refl (λ h. absurd (cc));
  }
  Step-Invariant {s} reads (add_again rank frame below at_adding made) i = record {
    sound = add-Sound s rank frame reads i below at_adding made;
    met = i.met;
  }
  Step-Invariant {s} reads (add rank frame below at_adding made) i = record {
    sound =
        move-Sound world_size s.place rank waiting refl _
          (add-Sound s rank frame reads i below at_adding made);
    met = move-met s rank waiting i refl (λ h. absurd (cc));
  }
  Step-Invariant {s} reads (pass rank ranks at_waiting polled full) i = record {
    sound = move-Sound world_size s.place rank passed refl _ i.sound;
    met = move-met s rank passed i refl (λ h.
        pass-all s ranks i
          (get_object-set pickle js key ranks (λ zs. reads (many zs)) s.server polled) full);
  }
  Step-Invariant {s} reads (time_out rank at_waiting) i = record {
    sound = move-Sound world_size s.place rank timed_out refl _ i.sound;
    met = move-met s rank timed_out i refl (λ h. absurd (cc));
  }
  Step-Invariant {s} reads (clear at_passed) i = record {
    sound = rw (delete_if_exists-none pickle js key s.server) tt;
    met = i.met;
  }
  Step-Invariant {s} reads (other request elsewhere) i = record {
    sound = rw (handle-frame pickle js request s.server key elsewhere) i.sound;
    met = i.met;
  }

  Reach-Invariant :
      {s t : Barrier}
      → ((v : Value ℕ) → pickle.loads (pickle.dumps v) ≡ ok v)
      → Invariant s
      → Reach pickle js key world_size s t
      → Invariant t
  Reach-Invariant reads i here = i
  Reach-Invariant reads i (next r st) = Step-Invariant reads st (Reach-Invariant reads i r)

  -- From a server with nothing under the key and before any call, in whatever order the server
  -- sees the requests of the ranks and of others, attempts that are repeated included: when one rank
  -- has left the barrier with success, each of the world_size ranks has come to it. The others do not
  -- write the key, and pickle reads back what it dumps.
  pub barrier_lem :
      (start now : Barrier)
      → ((v : Value ℕ) → pickle.loads (pickle.dumps v) ≡ ok v)
      → get start.server.storage key ≡ none
      → ((r : ℕ) → start.place r ≡ before)
      → Reach pickle js key world_size start now
      → (rank : ℕ) → now.place rank ≡ passed
      → (r : ℕ) → r < world_size
      → came (now.place r) ≡ true
  barrier_lem start now reads empty all_before reached =
      (Reach-Invariant reads
        (record { sound = rw empty tt; met = λ rank is. absurd (cc (all_before rank)) })
        reached).met

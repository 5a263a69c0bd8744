-- ===== src/MetaServer/Barrier/Stuck.antt =====
-- What becomes of a rank that has not seen the full set when rank 0 deletes it.
use asystem_awex.Prelude.{
  ℕ, ◌<◌, ◌≤◌, ◌≡◌, ◌⊎◌, refl, ◌∙◌, subst, Bool, true, false, none, some, List, [], length, arith,
  inl, inr, Bool-cases, ◌==◌, if◌then◌else◌,
}
use asystem_awex.Prelude.Equality.{Text, nat_eq, list_eq}
use asystem_awex.Prelude.Dict.{get}
use asystem_awex.Prelude.Result.{ok}
use asystem_awex.Common.Framing.{Bytes, Pickle}
use asystem_awex.MetaServer.{Value, many, raw, collected, Json}
use asystem_awex.MetaServer.Frame.{handle-frame}
use asystem_awex.MetaServer.Client.Once.{delete_if_exists-none, get_object-set}
use asystem_awex.MetaServer.Barrier.{
  Place, before, adding, waiting, passed, timed_out, Barrier, move, Step, enter, add_again, add,
  pass, time_out, clear, other, Reach, here, next,
}

-- Whether a rank may still add itself to the set.
abbrev pub to_add : Place → Bool
to_add before = true
to_add adding = true
to_add _ = false

-- Whether a rank is still in the call, or out of it with the TimeoutError.
abbrev pub unlucky : Place → Bool
unlucky waiting = true
unlucky timed_out = true
unlucky _ = false

unlucky-cases : (p : Place) → unlucky p ≡ true → (p ≡ waiting) ⊎ (p ≡ timed_out)
unlucky-cases waiting h = inl refl
unlucky-cases timed_out h = inr refl
unlucky-cases before h = absurd (cc)
unlucky-cases adding h = absurd (cc)
unlucky-cases passed h = absurd (cc)

module _ {J : Type 0} (pickle : Pickle (Value ℕ)) (js : Json J) (key : Text) (world_size : ℕ) where
  -- The set is gone, no rank will add to it again, and this rank waits.
  record Abandoned (rank : ℕ) (s : Barrier) : Type 0 where
    gone : get s.server.storage key ≡ none
    added : (r : ℕ) → r < world_size → to_add (s.place r) ≡ false
    alone : unlucky (s.place rank) ≡ true

  move-added :
      (s : Barrier) (who : ℕ) (to : Place)
      → to_add to ≡ false
      → ((r : ℕ) → r < world_size → to_add (s.place r) ≡ false)
      → (r : ℕ) → r < world_size
      → to_add (move s.place who to r) ≡ false
  unfolding move
  move-added s who to h k r below = elim (Bool-cases (r == who)) [
    | inl t ↦ rw (move, t, if◌then◌else◌) h
    | inr t ↦ rw (move, t, if◌then◌else◌) (k r below)
  ]

  move-alone :
      (s : Barrier) (who : ℕ) (to : Place) (rank : ℕ)
      → unlucky to ≡ true
      → unlucky (s.place rank) ≡ true
      → unlucky (move s.place who to rank) ≡ true
  unfolding move
  move-alone s who to rank h k = elim (Bool-cases (rank == who)) [
    | inl t ↦ rw (move, t, if◌then◌else◌) h
    | inr t ↦ rw (move, t, if◌then◌else◌) k
  ]

  -- An absent set is never full.
  absent-short :
      (s : Barrier) (ranks : List ℕ)
      → 0 < world_size
      → get s.server.storage key ≡ none
      → ((get s.server.storage key ≡ none) × (ranks ≡ []))
        ⊎ (get s.server.storage key ≡ some (collected ranks))
        ⊎ ((bytes : Bytes) × (get s.server.storage key ≡ some (raw bytes)))
      → ¬ (world_size ≤ length ranks)
  absent-short s ranks some_rank gone (inl (t, e)) full =
      let none_wanted : world_size ≤ length {A = ℕ} [] =
        subst (λ x. world_size ≤ length x) e full in
      omega arith
  absent-short s ranks some_rank gone (inr (inl t)) full = absurd (cc)
  absent-short s ranks some_rank gone (inr (inr (bytes, t))) full = absurd (cc)

  Step-Abandoned :
      {s t : Barrier} (rank : ℕ)
      → ((v : Value ℕ) → pickle.loads (pickle.dumps v) ≡ ok v)
      → 0 < world_size
      → Step pickle js key world_size s t
      → Abandoned rank s
      → Abandoned rank t
  Step-Abandoned {s} rank reads some_rank (enter who below at_before) i =
      absurd (cc (i.added who below))
  Step-Abandoned {s} rank reads some_rank (add_again who frame below at_adding made) i =
      absurd (cc (i.added who below))
  Step-Abandoned {s} rank reads some_rank (add who frame below at_adding made) i =
      absurd (cc (i.added who below))
  Step-Abandoned {s} rank reads some_rank (pass who ranks at_waiting polled full) i = absurd (
      absent-short s ranks some_rank i.gone
        (get_object-set pickle js key ranks (λ zs. reads (many zs)) s.server polled) full)
  Step-Abandoned {s} rank reads some_rank (time_out who at_waiting) i = record {
    gone = i.gone;
    added = move-added s who timed_out refl i.added;
    alone = move-alone s who timed_out rank refl i.alone;
  }
  Step-Abandoned {s} rank reads some_rank (clear at_passed) i = record {
    gone = delete_if_exists-none pickle js key s.server;
    added = i.added;
    alone = i.alone;
  }
  Step-Abandoned {s} rank reads some_rank (other request elsewhere) i = record {
    gone = handle-frame pickle js request s.server key elsewhere ∙ i.gone;
    added = i.added;
    alone = i.alone;
  }

  Reach-Abandoned :
      {s t : Barrier} (rank : ℕ)
      → ((v : Value ℕ) → pickle.loads (pickle.dumps v) ≡ ok v)
      → 0 < world_size
      → Abandoned rank s
      → Reach pickle js key world_size s t
      → Abandoned rank t
  Reach-Abandoned rank reads some_rank i here = i
  Reach-Abandoned rank reads some_rank i (next r st) =
      Step-Abandoned rank reads some_rank st (Reach-Abandoned rank reads some_rank i r)

  -- Once every rank has been counted and rank 0 has deleted the set, a rank that still waits for it
  -- never leaves the barrier with success, in whatever order the requests go on: it waits, or it
  -- raises TimeoutError, although all have come. The others do not write the key, and pickle reads
  -- back what it dumps.
  pub deleted_set-blocks :
      (s t : Barrier) (rank : ℕ)
      → ((v : Value ℕ) → pickle.loads (pickle.dumps v) ≡ ok v)
      → 0 < world_size
      → get s.server.storage key ≡ none
      → ((r : ℕ) → r < world_size → to_add (s.place r) ≡ false)
      → s.place rank ≡ waiting
      → Reach pickle js key world_size s t
      → (t.place rank ≡ waiting) ⊎ (t.place rank ≡ timed_out)
  deleted_set-blocks s t rank reads some_rank gone added at_waiting reached =
      unlucky-cases (t.place rank)
        (Reach-Abandoned rank reads some_rank
          (record { gone = gone; added = added; alone = rw at_waiting refl }) reached).alone

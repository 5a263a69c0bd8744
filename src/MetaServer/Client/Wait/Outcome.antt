-- ===== src/MetaServer/Client/Wait/Outcome.antt =====
-- How waiting for a key ends.
use asystem_awex.Prelude.{
  ℕ, zero, suc, ◌+◌, ◌-◌, ◌*◌, ◌/◌, ◌<◌, ◌≤◌, ◌≡◌, refl, ap, ◌∙◌, Bool, true, false, not, Option,
  none, some, List, get_elem?, min, leb, leb→gt, arith, inl, inr, Bool-cases, ◌⊎◌, if◌then◌else◌,
}
use asystem_awex.Prelude.Equality.{Text, Eq, list_eq, nat_eq}
use asystem_awex.Prelude.Dict.{has}
use asystem_awex.Prelude.Result.{Result, ok, err, timeout_error, connection_error}
use asystem_awex.Common.Framing.{Pickle}
use asystem_awex.MetaServer.{Value, Json, MetaServer, has_key, handle, has_key_handler}
use asystem_awex.MetaServer.Retry.{Failed, Sent-cases}
use asystem_awex.MetaServer.Client.{Asked, ask, client_has_key}
use asystem_awex.MetaServer.Client.Wait.{
  Surroundings, absent_if_timed_out, poll, after_round, next_round, wait_loop, wait_key,
}

gt→leb : (a b : ℕ) → b < a → leb a b ≡ false
gt→leb a b h = ground arith

-- Whether an attempt has failed, and without a timeout.
abbrev pub refuses : Option Failed → Bool
refuses none = false
refuses (some failed) = not failed.timed_out

-- Whether the ten attempts of a request fail, and the last of them without a timeout.
abbrev pub refused : List Failed → Bool
refused failures = refuses (get_elem? failures 9)

module _ {A J : Type 0} ⦃e : Eq A⦄ (pickle : Pickle (Value A)) (js : Json J) (around : Surroundings)
    (key : Text) where
  -- The outcomes of a poll: False, True with the key on the server, or the error of a last attempt
  -- that is no timeout.
  poll-cases :
      (n : ℕ) (server : MetaServer A)
      → ((poll pickle js around key n server).0 ≡ ok false)
        ⊎ (((poll pickle js around key n server).0 ≡ ok true)
            × (has (poll pickle js around key n server).1.storage key ≡ true))
        ⊎ (((poll pickle js around key n server).0 ≡ err connection_error)
            × (refused (around.failures n) ≡ true))
  unfolding poll client_has_key ask handle has_key_handler
  poll-cases n server = elim (Sent-cases pickle js (around.failures n) (has_key key) server) [
    | inl (failed, last, t) ↦ elim (Bool-cases failed.timed_out) [
      | inl late ↦ inl (rw (poll, client_has_key, ask, t, late) refl)
      | inr early ↦
          inr (inr (rw (poll, client_has_key, ask, t, early) refl, ap refuses last ∙ ap not early))
    ]
    | inr (s, t) ↦ elim (Bool-cases (has s.storage key)) [
      | inl h ↦ inr (inl (rw t (ap (λ b. absent_if_timed_out (ok b)) h), rw t h))
      | inr h ↦ inl (rw t (ap (λ b. absent_if_timed_out (ok b)) h))
    ]
  ]

  -- Waiting ends well when the key is there, and otherwise with the timeout, or with the error of
  -- a poll whose last attempt failed with no timeout.
  abbrev pub Ended : (polls : ℕ) → Asked pickle js (Unit {0}) → Type 0
  Ended polls outcome =
      ((outcome.0 ≡ ok tt) × (has outcome.1.storage key ≡ true))
      ⊎ (outcome.0 ≡ err timeout_error)
      ⊎ ((outcome.0 ≡ err connection_error)
          × (n : ℕ) × (n < polls)
          × (refused (around.failures n) ≡ true))

  next_round-Ended :
      (found : Result Bool) (late : Bool) (stopped slept : MetaServer A)
      (rest : Asked pickle js (Unit {0})) (n polls : ℕ)
      → n < polls
      → (found ≡ ok false)
        ⊎ ((found ≡ ok true) × (has stopped.storage key ≡ true))
        ⊎ ((found ≡ err connection_error) × (refused (around.failures n) ≡ true))
      → (late ≡ false → Ended polls rest)
      → Ended polls (next_round pickle js around key found late stopped slept rest)
  unfolding next_round
  next_round-Ended (err fault) late stopped slept rest n polls below (inl h) k = absurd (cc)
  next_round-Ended (err fault) late stopped slept rest n polls below (inr (inl h)) k = absurd (cc)
  next_round-Ended (err fault) late stopped slept rest n polls below (inr (inr (h, r))) k =
      let same : fault ≡ connection_error = cc in inr (inr (ap err same, n, below, r))
  next_round-Ended (ok true) late stopped slept rest n polls below (inl h) k = absurd (cc)
  next_round-Ended (ok true) late stopped slept rest n polls below (inr (inl h)) k = inl (refl, h.1)
  next_round-Ended (ok true) late stopped slept rest n polls below (inr (inr h)) k = absurd (cc)
  next_round-Ended (ok false) true stopped slept rest n polls below h k = inr (inl refl)
  next_round-Ended (ok false) false stopped slept rest n polls below h k = k refl

  slept_some :
      (late : Bool) (backoff : ℕ)
      → 200 ≤ backoff
      → (200 ≤ (if late then 3000 else backoff))
        × (backoff ≤ 3000 → (if late then 3000 else backoff) ≤ 3000)
  slept_some true backoff h = (omega arith, λ k. omega arith)
  slept_some false backoff h = (h, λ k. k)

  wait_loop-Ended :
      (fuel n backoff timeout polls : ℕ)
      → 200 ≤ backoff
      → timeout < 200 * fuel
      → n + fuel ≤ polls
      → (server : MetaServer A)
      → Ended polls (wait_loop pickle js around key fuel n backoff timeout server)
  unfolding wait_loop
  wait_loop-Ended zero n backoff timeout polls long fits few_polls server = absurd (omega arith)
  wait_loop-Ended (suc fuel) n backoff timeout polls long fits few_polls server =
      let slept_for = if around.a_minute_passed n then 3000 else backoff in
      let (enough, few) = slept_some (around.a_minute_passed n) backoff long in
      next_round-Ended _ (leb timeout slept_for) _ _ _ n polls (omega arith) (poll-cases n server)
        (λ not_late.
          wait_loop-Ended fuel (n + 1) (min (slept_for * 3 / 2) 1000) (timeout - slept_for) polls
            (omega arith) (omega (arith, leb→gt timeout slept_for not_late)) (omega arith)
            (after_round pickle js around key n server))

  -- wait_key ends, whatever attempts fail, whatever others ask and however the clock goes: it
  -- returns, and then the server it leaves holds the key, or it raises TimeoutError, or it raises
  -- ConnectionError, and then among the first timeout / 0.2 s + 1 polls, more than which the loop
  -- never makes, is one whose tenth attempt failed and did not time out.
  pub wait_key_total :
      (timeout : ℕ) (server : MetaServer A)
      → Ended (timeout / 200 + 1) (wait_key pickle js around key timeout server)
  unfolding wait_key
  wait_key_total timeout server =
      wait_loop-Ended (timeout / 200 + 1) 0 200 timeout (timeout / 200 + 1) (omega arith)
        (omega arith) (omega arith) server

  -- The poll of round k + n finds the key, after the rounds from k on.
  abbrev pub FoundAt : (k n : ℕ) → MetaServer A → Type 0
  FoundAt k zero server = (poll pickle js around key k server).0 ≡ ok true
  FoundAt k (suc n) server = FoundAt (k + 1) n (after_round pickle js around key k server)

  next_round-ok :
      (found : Result Bool) (late : Bool) (stopped slept : MetaServer A)
      (rest : Asked pickle js (Unit {0}))
      → (found ≡ ok false) ⊎ (found ≡ ok true)
      → late ≡ false
      → rest.0 ≡ ok tt
      → (next_round pickle js around key found late stopped slept rest).0 ≡ ok tt
  unfolding next_round
  next_round-ok (err fault) late stopped slept rest (inl h) e k = absurd (cc)
  next_round-ok (err fault) late stopped slept rest (inr h) e k = absurd (cc)
  next_round-ok (ok true) late stopped slept rest h e k = refl
  next_round-ok (ok false) true stopped slept rest h e k = absurd (cc)
  next_round-ok (ok false) false stopped slept rest h e k = k

  -- A poll that is not refused gives an answer.
  poll-answers :
      (n : ℕ) (server : MetaServer A)
      → refused (around.failures n) ≡ false
      → ((poll pickle js around key n server).0 ≡ ok false)
        ⊎ ((poll pickle js around key n server).0 ≡ ok true)
  poll-answers n server h = elim (poll-cases n server) [
    | inl t ↦ inl t
    | inr (inl t) ↦ inr t.0
    | inr (inr t) ↦ absurd (cc)
  ]

  wait_loop-found :
      (n fuel k backoff timeout : ℕ)
      → 200 ≤ backoff
      → backoff ≤ 3000
      → timeout < 200 * fuel
      → 3000 * n < timeout
      → ((m : ℕ) → k ≤ m → m < k + n → refused (around.failures m) ≡ false)
      → (server : MetaServer A) → FoundAt k n server
      → (wait_loop pickle js around key fuel k backoff timeout server).0 ≡ ok tt
  unfolding wait_loop next_round
  wait_loop-found n zero k backoff timeout long short fits room calm server found =
      absurd (omega arith)
  wait_loop-found zero (suc fuel) k backoff timeout long short fits room calm server found =
      rw (wait_loop, found) refl
  wait_loop-found (suc n) (suc fuel) k backoff timeout long short fits room calm server found =
      let slept_for = if around.a_minute_passed k then 3000 else backoff in
      let (enough, few) = slept_some (around.a_minute_passed k) backoff long in
      let at_most : slept_for ≤ 3000 = few short in
      next_round-ok _ (leb timeout slept_for) _ _ _
        (poll-answers k server (calm k (omega arith) (omega arith)))
        (gt→leb timeout slept_for (omega arith))
        (wait_loop-found n fuel (k + 1) (min (slept_for * 3 / 2) 1000) (timeout - slept_for)
          (omega arith) (omega arith) (omega arith) (omega arith)
          (λ m low high. calm m (omega arith) (omega arith))
          (after_round pickle js around key k server) found)

  -- Where the n-th poll finds the key, the timeout leaves three seconds for each of the n sleeps
  -- before it, and none of the polls before it has a tenth attempt that fails without a timeout, wait_key returns and does not time out, at that poll or at an earlier one.
  pub wait_key-found :
      (n timeout : ℕ)
      → 3000 * n < timeout
      → ((m : ℕ) → m < n → refused (around.failures m) ≡ false)
      → (server : MetaServer A) → FoundAt 0 n server
      → (wait_key pickle js around key timeout server).0 ≡ ok tt
  unfolding wait_key
  wait_key-found n timeout room calm server found =
      wait_loop-found n (timeout / 200 + 1) 0 200 timeout (omega arith) (omega arith) (omega arith)
        room (λ m low high. calm m (omega arith)) server found

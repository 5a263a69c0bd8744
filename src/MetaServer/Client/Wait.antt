-- ===== src/MetaServer/Client/Wait.antt =====
-- `_has_key` and `wait_key` of MetaServerClient, awex/meta/meta_server.py. Times are milliseconds: the
-- backoffs 200, 300, 450, 675 and 1000 are whole, and so is what is left of a whole timeout. The
-- clock is an input: whether a minute has passed by the n-th sleep. So are the failed attempts of
-- the n-th poll and the requests of others during the n-th sleep. The log is left out, and so is
-- the further sleep of three seconds after a slow poll, which the timeout does not count.
pub mod Outcome
use asystem_awex.Prelude.{
  ℕ, zero, suc, ◌+◌, ◌-◌, ◌*◌, ◌/◌, ◌≡◌, refl, Bool, true, false, Option, none, some, List, min,
  leb, if◌then◌else◌,
}
use asystem_awex.Prelude.Equality.{Text, Eq}
use asystem_awex.Prelude.Result.{
  Result, ok, err, Fault, request_timeout, timeout_error, out_of_fuel,
}
use asystem_awex.Common.Framing.{Pickle}
use asystem_awex.MetaServer.{Value, Json, MetaServer, Request, run}
use asystem_awex.MetaServer.Retry.{Failed}
use asystem_awex.MetaServer.Client.{Asked, client_has_key, client_get_object}

-- What happens around the loop.
pub record Surroundings : Type 0 where
  pub failures : ℕ → List Failed
  pub meanwhile : ℕ → List Request
  pub a_minute_passed : ℕ → Bool

-- _has_key: where the last attempt has timed out, the key counts as absent; another error escapes.
abbrev pub absent_if_timed_out : Result Bool → Result Bool
absent_if_timed_out (err request_timeout) = ok false
absent_if_timed_out found = found

module _ {A J : Type 0} ⦃e : Eq A⦄ (pickle : Pickle (Value A)) (js : Json J) (around : Surroundings)
    (key : Text) where
  unfoldable pub poll : ℕ → MetaServer A → Asked pickle js Bool
  poll n server =
      let (found, next) = client_has_key pickle js (around.failures n) key server in
      (absent_if_timed_out found, next)

  -- The server after the poll and the sleep of a round.
  unfoldable pub after_round : ℕ → MetaServer A → MetaServer A
  unfolding poll
  after_round n server = (run pickle js (around.meanwhile n) (poll n server).1).1

  -- What the loop does next when `rest` is the outcome of the further rounds.
  pub next_round :
      Result Bool
      → (late : Bool) → (stopped slept : MetaServer A) → (rest : Asked pickle js (Unit {0}))
      → Asked pickle js (Unit {0})
  next_round (err fault) late stopped slept rest = (err fault, stopped)
  next_round (ok true) late stopped slept rest = (ok tt, stopped)
  next_round (ok false) true stopped slept rest = (err timeout_error, slept)
  next_round (ok false) false stopped slept rest = rest

  -- The while loop from its n-th poll on.
  pub wait_loop : (fuel n backoff timeout : ℕ) → MetaServer A → Asked pickle js (Unit {0})
  unfolding poll after_round next_round
  wait_loop zero n backoff timeout server = (err out_of_fuel, server)
  wait_loop (suc fuel) n backoff timeout server =
      let slept_for = if around.a_minute_passed n then 3000 else backoff in
      let slept = after_round n server in
      let rest =
        wait_loop fuel (n + 1) (min (slept_for * 3 / 2) 1000) (timeout - slept_for) slept in
      next_round (poll n server).0 (leb timeout slept_for) (poll n server).1 slept rest

  pub wait_key : (timeout : ℕ) → MetaServer A → Asked pickle js (Unit {0})
  unfolding wait_loop
  wait_key timeout server = wait_loop (timeout / 200 + 1) 0 200 timeout server

  -- get_object with a timeout above zero: where a default is given, it stands in for a key that
  -- does not come.
  pub get_when_there :
      List Failed
      → Option (Value A)
      → Asked pickle js (Unit {0})
      → Asked pickle js (Option (Value A))
  get_when_there failures default_value (ok done, server) =
      client_get_object pickle js failures key default_value server
  get_when_there failures (some value) (err timeout_error, server) = (ok (some value), server)
  get_when_there failures default_value (err fault, server) = (err fault, server)

  pub wait_object :
      (timeout : ℕ)
      → List Failed
      → Option (Value A)
      → MetaServer A
      → Asked pickle js (Option (Value A))
  unfolding wait_key get_when_there
  wait_object timeout failures default_value server =
      get_when_there failures default_value (wait_key timeout server)

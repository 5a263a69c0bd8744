-- ===== src/MetaServer/Retry.antt =====
-- `retry` of awex/meta/meta_server.py and the session's requests behind it. What the network does
-- to an attempt is an input: the attempt never reaches the server, or is served and the answer is
-- lost, or is answered. It fails with a timeout of requests, a ConnectTimeout or a ReadTimeout, or
-- with another ConnectionError. Between two attempts the client sleeps; what other clients ask in the
-- meantime is a part of the input too.
use asystem_awex.Prelude.{
  ℕ, zero, suc, ◌<◌, ◌≡◌, refl, Bool, some, get_elem?, List, [], ◌∷◌, length, Each, arith,
  Bool-cases, ◌⊎◌, inl, inr, if◌then◌else◌,
}
use asystem_awex.Prelude.Equality.{Eq, list_eq}
use asystem_awex.Prelude.Result.{
  Result, ok, err, Fault, connection_error, request_timeout, attribute_error,
}
use asystem_awex.Common.Framing.{Pickle}
use asystem_awex.MetaServer.{Value, Json, MetaServer, Request, Response, handle, run}

-- An attempt that fails, with the requests that others make before the next one.
pub record Failed : Type 0 where
  pub served : Bool
  pub timed_out : Bool
  pub meanwhile : List Request

-- What a failed attempt raises.
abbrev pub raised : Failed → Fault
raised failed = if failed.timed_out then request_timeout else connection_error

module _ {A J : Type 0} ⦃e : Eq A⦄ (pickle : Pickle (Value A)) (js : Json J) where
  -- What a failed attempt leaves behind.
  unfoldable pub attempt : Failed → Request → MetaServer A → MetaServer A
  unfolding run
  attempt failed request server =
      (run pickle js failed.meanwhile
        (if failed.served then (handle pickle js request server).1 else server)).1

  -- The attempts beyond the failed ones are answered. The error of the last attempt is raised again.
  -- With no attempt allowed the loop is not entered, and the caller uses the None that it gets.
  unfoldable pub retry :
      ℕ → List Failed → Request → MetaServer A → Result (Response J) × MetaServer A
  unfolding attempt
  retry zero failures request server = (err attribute_error, server)
  retry (suc retries) [] request server =
      let (response, next) = handle pickle js request server in (ok response, next)
  retry (suc zero) (failed ∷ failures) request server =
      (err (raised failed), attempt failed request server)
  retry (suc (suc retries)) (failed ∷ failures) request server =
      retry (suc retries) failures request (attempt failed request server)

  -- max_retries
  unfoldable pub send : List Failed → Request → MetaServer A → Result (Response J) × MetaServer A
  unfolding retry
  send failures request server = retry 10 failures request server

  -- A property of the state that a request keeps.
  abbrev pub Keeps : (MetaServer A → Type 0) → Request → Type 0
  Keeps P request = (server : MetaServer A) → P server → P (handle pickle js request server).1

  -- Failed attempts in whose meantime only requests are made that keep it.
  abbrev pub Undisturbed : (MetaServer A → Type 0) → List Failed → Type 0
  Undisturbed P failures = Each (λ failed. Each (Keeps P) failed.meanwhile) failures

  pub run-keeps :
      (P : MetaServer A → Type 0) (requests : List Request)
      → Each (Keeps P) requests
      → (server : MetaServer A) → P server
      → P (run pickle js requests server).1
  unfolding run
  run-keeps P [] h server p = p
  run-keeps P (request ∷ requests) h server p =
      run-keeps P requests h.1 (handle pickle js request server).1 (h.0 server p)

  attempt-keeps :
      (P : MetaServer A → Type 0) (failed : Failed) (request : Request)
      → Keeps P request
      → Each (Keeps P) failed.meanwhile
      → (server : MetaServer A) → P server
      → P (attempt failed request server)
  unfolding attempt
  attempt-keeps P failed request h others server p =
      run-keeps P failed.meanwhile others _ (elim (Bool-cases failed.served) [
        | inl t ↦ rw (t, if◌then◌else◌) (h server p)
        | inr t ↦ rw (t, if◌then◌else◌) p
      ])

  -- The answer to a request after fewer failures than attempts: the state that it is answered in
  -- still has what the request and the others keep.
  pub record Answered (P : MetaServer A → Type 0) (request : Request)
      (outcome : Result (Response J) × MetaServer A) : Type 0 where
    pub before : MetaServer A
    pub kept : P before
    pub answer :
        outcome ≡ (ok (handle pickle js request before).0, (handle pickle js request before).1)

  pub Answered-of :
      (P : MetaServer A → Type 0) (retries : ℕ) (failures : List Failed) (request : Request)
      → Keeps P request
      → Undisturbed P failures
      → length failures < retries
      → (server : MetaServer A) → P server
      → Answered P request (retry retries failures request server)
  unfolding retry
  Answered-of P zero failures request h others fewer server p = absurd (omega arith)
  Answered-of P (suc retries) [] request h others fewer server p = record {
    before = server;
    kept = p;
    answer = refl;
  }
  Answered-of P (suc zero) (failed ∷ failures) request h others fewer server p =
      absurd (omega arith)
  Answered-of P (suc (suc retries)) (failed ∷ failures) request h others fewer server p =
      Answered-of P (suc retries) failures request h others.1 (omega arith)
        (attempt failed request server) (attempt-keeps P failed request h others.0 server p)

  pub Sent-of :
      (P : MetaServer A → Type 0) (failures : List Failed) (request : Request)
      → Keeps P request
      → Undisturbed P failures
      → length failures < 10
      → (server : MetaServer A) → P server
      → Answered P request (send failures request server)
  unfolding send
  Sent-of P failures request h others fewer server p =
      Answered-of P 10 failures request h others fewer server p

  -- However many attempts fail: the request is answered in the end, or what the last attempt raised
  -- is raised.
  retry-cases :
      (retries : ℕ) (failures : List Failed) (request : Request) (server : MetaServer A)
      → ((failed : Failed) × (get_elem? failures retries ≡ some failed)
          × ((retry (suc retries) failures request server).0 ≡ err (raised failed)))
        ⊎ ((s : MetaServer A) × (retry (suc retries) failures request server
              ≡ (ok (handle pickle js request s).0, (handle pickle js request s).1)))
  unfolding retry
  retry-cases retries [] request server = inr (server, refl)
  retry-cases zero (failed ∷ failures) request server = inl (failed, refl, refl)
  retry-cases (suc retries) (failed ∷ failures) request server =
      retry-cases retries failures request (attempt failed request server)

  pub Sent-cases :
      (failures : List Failed) (request : Request) (server : MetaServer A)
      → ((failed : Failed) × (get_elem? failures 9 ≡ some failed)
          × ((send failures request server).0 ≡ err (raised failed)))
        ⊎ ((s : MetaServer A) × (send failures request server
              ≡ (ok (handle pickle js request s).0, (handle pickle js request s).1)))
  unfolding send
  Sent-cases failures request server = retry-cases 9 failures request server

  pub send-at_once :
      (request : Request) (server : MetaServer A)
      → send [] request server
        ≡ (ok (handle pickle js request server).0, (handle pickle js request server).1)
  unfolding send retry
  send-at_once request server = refl

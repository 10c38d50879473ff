-- ===== src/Kube/Exec.antt =====
-- The actions of a reconciler. A `Call` is a Go call that returns a value and an error. An `Exec` is a
-- stretch of a reconciler's body: it goes on with a value, or the reconciler has returned. The state is
-- the agent's status in memory, the world, and the log of the requests that write, the newest first.
use hermes_agent_operator.Prelude.{ℕ, Bool, Option, none, some, List, if◌then◌else◌}
use hermes_agent_operator.Objects.{NsName}
use hermes_agent_operator.Api.Agent.{HermesAgentStatus}
use hermes_agent_operator.Kube.Client.{Error, Result, ok, err, Kind, Object}

pub data Request : Type 0 where
  create : (k : Kind) → Object k → Request
  update : (k : Kind) → Object k → Request
  delete : Kind → NsName → Request
  update_status : HermesAgentStatus → Request

pub record State (W : Type 0) : Type 0 where
  pub status : HermesAgentStatus
  pub world : W
  pub log : List Request

-- What a reconciler returns: `ctrl.Result` (RequeueAfter in nanoseconds, 0 for none) and the error.
pub record Outcome : Type 0 where
  pub requeue_after : ℕ
  pub error : Option Error

pub data Flow (A : Type 0) : Type 0 where
  next : A → Flow A
  stop : Outcome → Flow A

abbrev pub second : ℕ
second = 1000000000

abbrev pub retry_delay : ℕ
retry_delay = 30000000000

-- `return ctrl.Result{}, nil`.
abbrev pub done : Outcome
done = record { requeue_after = 0; error = none }

-- `return ctrl.Result{RequeueAfter: d}, nil`.
abbrev pub requeue : ℕ → Outcome
requeue d = record { requeue_after = d; error = none }

-- `return ctrl.Result{RequeueAfter: 30 * time.Second}, e`.
abbrev pub failed_with : Error → Outcome
failed_with e = record { requeue_after = retry_delay; error = some e }

abbrev pub Call : Type 0 → Type 0 → Type 0
Call W A = State W → Result A × State W

abbrev pub Exec : Type 0 → Type 0 → Type 0
Exec W A = State W → Flow A × State W

abbrev pub Handler : Type 0 → Type 0
Handler W = State W → Outcome × State W

-- `if err != nil { return ctrl.Result{RequeueAfter: 30 * time.Second}, err }`.
abbrev pub or_retry : {A : Type 0} → Result A → Flow A
or_retry (ok a) = next a
or_retry (err e) = stop (failed_with e)

abbrev pub outcome : Flow Outcome → Outcome
outcome (next o) = o
outcome (stop o) = o

module _ {W A : Type 0} where
  unfoldable pub pure : A → Exec W A
  pure a s = (next a, s)

  unfoldable pub return : Outcome → Exec W A
  return o s = (stop o, s)

  -- A call whose error makes the reconciler return and retry.
  unfoldable pub attempt : Call W A → Exec W A
  attempt m s = let (r, s') = m s in (or_retry r, s')

  -- A call whose error the code looks at.
  unfoldable pub tried : Call W A → Exec W (Result A)
  tried m s = let (r, s') = m s in (next r, s')

  -- A call that has no error, and may change the status or the world.
  unfoldable pub acted : (State W → A × State W) → Exec W A
  acted m s = let (a, s') = m s in (next a, s')

  unfoldable pub lift : Result A → Call W A
  lift r s = (r, s)

  unfoldable pub gets : (State W → A) → Exec W A
  gets f s = (next (f s), s)

module _ {W : Type 0} where
  unfoldable pub modify_status : (HermesAgentStatus → HermesAgentStatus) → Exec W (Unit {0})
  modify_status f s = (next tt, record s { status = f s.status })

  unfoldable pub finish : Exec W Outcome → Handler W
  finish m s = let (r, s') = m s in (outcome r, s')

module _ {W A B : Type 0} where
  abbrev pub continue : Flow A → (A → Exec W B) → Exec W B
  continue (next a) f s = f a s
  continue (stop o) f s = (stop o, s)

  infixl 10 ◌>>=◌ ◌>>◌
  unfoldable pub ◌>>=◌ : Exec W A → (A → Exec W B) → Exec W B
  ◌>>=◌ m f s = let (r, s') = m s in continue r f s'

  abbrev pub ◌>>◌ : Exec W A → Exec W B → Exec W B
  m >> n = m >>= λ _. n

-- `if b { … }` whose body does not return by itself.
unfoldable pub when : {W : Type 0} → Bool → Exec W (Unit {0}) → Exec W (Unit {0})
when b m = if b then m else pure tt

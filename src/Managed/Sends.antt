-- ===== src/Managed/Sends.antt =====
-- What an action asks of the cluster, exactly: the requests that change an object, whatever the cluster
-- answers to them. One rule for each way to build an action.
use hermes_agent_operator.Prelude.{
  String, Bool, true, false, Option, none, some, List, [], ◌∷◌, ◌++◌, ◌≡◌, refl, ◌∙◌, if◌then◌else◌,
}
use hermes_agent_operator.Api.Agent.{HermesAgent, HermesAgentStatus}
use hermes_agent_operator.Objects.{NsName, cond_false}
use hermes_agent_operator.Kube.Client.{Error, Result, ok, err, Platform, Kind, Object}
use hermes_agent_operator.Kube.Exec.{
  State, Outcome, Handler, Exec, Call, Flow, next, stop, Request, create, update, delete,
  update_status, pure, return, attempt, tried, acted, gets, modify_status, finish, continue, ◌>>=◌,
}
use hermes_agent_operator.Kube.Calls.{update_hermes_agent_status, status_sent}
use hermes_agent_operator.Kube.Calls
use hermes_agent_operator.Conditions.{set_ready_condition, mark_reconcile_failed, report, deferred}

-- SetControllerReference of an object that has no other controller succeeds, and changes only the owner
-- references, which the model does not hold.
abbrev pub Owns : {W : Type 0} → Platform W → Type 0
Owns p = (k : Kind) (ha : HermesAgent) (o : Object k) → p.set_controller_reference k ha o ≡ ok o

-- The requests but for the writes of the status.
abbrev pub object_requests : List Request → List Request
object_requests [] = []
object_requests (update_status st ∷ qs) = object_requests qs
object_requests (create k o ∷ qs) = create k o ∷ object_requests qs
object_requests (update k o ∷ qs) = update k o ∷ object_requests qs
object_requests (delete k n ∷ qs) = delete k n ∷ object_requests qs

-- The action asks for these requests, the newest first, whatever the cluster answers.
pub record Sends {W X : Type 0} (qs : List Request) (m : State W → X × State W) : Type 0 where
  pub at : (s : State W) → object_requests (m s).1.log ≡ qs ++ object_requests s.log

module _ {W : Type 0} where
  pub Sends-pure : {A : Type 0} (a : A) → Sends [] (pure {W = W} a)
  unfolding pure
  Sends-pure a = record { at = λ s. refl }

  pub Sends-modify :
      (f : HermesAgentStatus → HermesAgentStatus) → Sends [] (modify_status {W = W} f)
  unfolding modify_status
  Sends-modify f = record { at = λ s. refl }

  pub Sends-attempt :
      {A : Type 0} {qs : List Request} (m : Call W A) → Sends qs m → Sends qs (attempt m)
  unfolding attempt
  Sends-attempt m h = record { at = h.at }

  pub Sends-tried :
      {A : Type 0} {qs : List Request} (m : Call W A) → Sends qs m → Sends qs (tried m)
  unfolding tried
  Sends-tried m h = record { at = h.at }

  pub Sends-acted : {A : Type 0} (m : State W → A × State W) → Sends [] m → Sends [] (acted m)
  unfolding acted
  Sends-acted m h = record { at = h.at }

  pub Sends-gets : {A : Type 0} (f : State W → A) → Sends [] (gets f)
  unfolding gets
  Sends-gets f = record { at = λ s. refl }

  pub Sends-return : {A : Type 0} (o : Outcome) → Sends [] (return {W = W} {A = A} o)
  unfolding return
  Sends-return o = record { at = λ s. refl }

  pub Sends-finish : {qs : List Request} (m : Exec W Outcome) → Sends qs m → Sends qs (finish m)
  unfolding finish
  Sends-finish m h = record { at = h.at }

  Sends-continue :
      {A B : Type 0} (r : Flow A) (f : A → Exec W B)
      → ((a : A) → Sends [] (f a))
      → Sends [] (λ s. continue r f s)
  Sends-continue (next a) f h = record { at = (h a).at }
  Sends-continue (stop o) f h = record { at = λ s. refl }

  -- What comes after an action asks for nothing.
  pub Sends-bind :
      {A B : Type 0} {qs : List Request} (m : Exec W A) (f : A → Exec W B)
      → Sends qs m
      → ((a : A) → Sends [] (f a))
      → Sends qs (m >>= f)
  unfolding ◌>>=◌
  Sends-bind m f hm hf = record {
    at = λ s. let (r, s') = m s in (Sends-continue r f hf).at s' ∙ hm.at s;
  }

  -- What is asked for depends on the test.
  pub Sends-if :
      {A : Type 0} (f : Bool → List Request) (b : Bool) (m n : State W → A × State W)
      → Sends (f true) m
      → Sends (f false) n
      → Sends (f b) (if b then m else n)
  Sends-if f true m n hm hn = hm
  Sends-if f false m n hm hn = hn

  -- Two ways on, from which as many requests are read off.
  pub requests-if :
      {X : Type 0} (b : Bool) (x y : X × State W) {l : List Request}
      → object_requests x.1.log ≡ l
      → object_requests y.1.log ≡ l
      → object_requests (if b then x else y).1.log ≡ l
  requests-if true x y hx hy = hx
  requests-if false x y hx hy = hy

  module _ (p : Platform W) (ha : HermesAgent) where
    status_sent-requests :
        (s : State W) (r : Result HermesAgentStatus) (w : W)
        → object_requests (status_sent p s (r, w)).1.log ≡ object_requests s.log
    status_sent-requests s (ok st) w = refl
    status_sent-requests s (err e) w = refl

    pub Sends-status : Sends [] (update_hermes_agent_status p ha)
    unfolding update_hermes_agent_status
    Sends-status = record {
      at = λ s.
          let (r, w) = p.client_update_status ha s.status s.world in status_sent-requests s r w;
    }

    Sends-mark : (reason : String) (e : Error) → Sends [] (mark_reconcile_failed p ha reason e)
    unfolding mark_reconcile_failed
    Sends-mark reason e = record {
      at = λ s.
          let (changed, s') = set_ready_condition p ha cond_false reason e.text s in
          let written : object_requests (update_hermes_agent_status p ha s').1.log
              ≡ object_requests s.log =
            Sends-status.at s' in
          (elim changed
            as (λ b.
              object_requests
                (if◌then◌else◌ {A = Error × State W} b (e, (update_hermes_agent_status p ha s').1)
                  (e, s')).1.log
              ≡ object_requests s.log) [ true ↦ written | false ↦ refl ]);
    }

    Sends-report :
        (reason : String) (e : Option Error) (o : Outcome) → Sends [] (report p ha reason e o)
    Sends-report reason none o = record { at = λ s. refl }
    Sends-report reason (some e) o = record { at = (Sends-mark reason e).at }

    pub deferred-requests :
        (reason : String) (body : Handler W) (s : State W)
        → object_requests (deferred p ha reason body s).1.log ≡ object_requests (body s).1.log
    unfolding deferred
    deferred-requests reason body s = let (o, s') = body s in (Sends-report reason o.error o).at s'

    pub Sends-get : (k : Kind) (n : NsName) → Sends [] (Calls.get p k n)
    unfolding Calls.get
    Sends-get k n = record { at = λ s. refl }

    pub Sends-delete : (k : Kind) (n : NsName) → Sends (delete k n ∷ []) (Calls.delete p k n)
    unfolding Calls.delete
    Sends-delete k n = record { at = λ s. refl }

    module _ (owns : Owns p) where
      pub Sends-create : (k : Kind) (o : Object k) → Sends (create k o ∷ []) (Calls.create p ha k o)
      unfolding Calls.create
      Sends-create k o = record { at = λ s. rw (owns k ha o) }

      pub Sends-update : (k : Kind) (o : Object k) → Sends (update k o ∷ []) (Calls.update p ha k o)
      unfolding Calls.update
      Sends-update k o = record { at = λ s. rw (owns k ha o) }

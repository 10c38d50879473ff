-- ===== src/Managed/Plan.antt =====
-- What the reconciler of a managed object sends, as a function of the agent and of what the cluster
-- showed (internal/usecase/hermesagent_service.go, hermesagent_ingress.go, hermesagent_networkpolicy.go).
use hermes_agent_operator.Prelude.{
  String, Bool, true, false, Option, none, some, List, [], ◌∷◌, ◌++◌, ◌≡◌, refl, ◌∙◌, if_some,
}
use hermes_agent_operator.Api.Agent.{HermesAgent}
use hermes_agent_operator.Kube.Client.{Result, ok, err, Platform, Kind, Object}
use hermes_agent_operator.Kube.Exec.{
  State, Request, create, update, delete, pure, attempt, finish, when, done, continue, or_retry,
  next, ◌>>=◌,
}
use hermes_agent_operator.Kube.Calls.{get, or_nil}
use hermes_agent_operator.Conditions.{deferred}
use hermes_agent_operator.Managed.{
  Managed, record_name, remove_object, refresh_object, put_object, with_object, managed_body,
  reconcile_managed,
}
use hermes_agent_operator.Managed.Sends.{
  Owns, object_requests, Sends, Sends-pure, Sends-modify, Sends-attempt, Sends-bind, Sends-status,
  Sends-delete, Sends-create, Sends-update, deferred-requests, Sends-if,
}

-- What to do with an object: nothing, or delete it, replace it or create it.
pub data Plan (k : Kind) : Type 0 where
  leave remove : Plan k
  renew make : Object k → Plan k

module _ {k : Kind} (m : Managed k) where
  -- For an object that is asked for, and is there and as it should be, or not.
  abbrev pub plan_wanted : Option (Object k) → Bool → Plan k
  plan_wanted none settled = make (m.built none)
  plan_wanted (some o) true = leave
  plan_wanted (some o) false = renew (m.built (some o))

  abbrev pub plan_for : Option (Object k) → Bool → Plan k
  plan_for existing true = plan_wanted existing (if_some existing m.settled false)
  plan_for none false = leave
  plan_for (some o) false = remove

  -- Where the read failed, nothing.
  abbrev pub plan : Result (Option (Object k)) → Plan k
  plan (ok existing) = plan_for existing m.wanted
  plan (err e) = leave

  abbrev pub requests_of : Plan k → List Request
  requests_of leave = []
  requests_of remove = delete k m.ns_name ∷ []
  requests_of (renew o) = update k o ∷ []
  requests_of (make o) = create k o ∷ []

module _ {W : Type 0} (p : Platform W) (ha : HermesAgent) {k : Kind} (m : Managed k)
    (owns : Owns p) where
  Sends-record : (name : String) → Sends [] (record_name p ha m name)
  unfolding record_name
  Sends-record name =
      Sends-bind _ _ (Sends-modify (m.recorded name))
        (λ _. Sends-bind _ _ (Sends-attempt _ (Sends-status p ha)) (λ _. Sends-pure done))

  Sends-remove :
      (existing : Option (Object k))
      → Sends (requests_of m (plan_for m existing false)) (remove_object p ha m existing)
  unfolding remove_object when
  Sends-remove none = Sends-bind _ _ (Sends-pure tt) (λ _. Sends-record "")
  Sends-remove (some o) =
      Sends-bind _ _ (Sends-attempt _ (Sends-delete p ha k m.ns_name)) (λ _. Sends-record "")

  Sends-refresh :
      (o : Object k) → Sends (update k (m.built (some o)) ∷ []) (refresh_object p ha m o)
  unfolding refresh_object
  Sends-refresh o =
      Sends-bind _ _ (Sends-attempt _ (Sends-update p ha owns k _)) (λ _. Sends-pure done)

  Sends-put :
      (existing : Option (Object k))
      → Sends (requests_of m (plan_for m existing true)) (put_object p ha m existing)
  unfolding put_object
  Sends-put none =
      Sends-bind _ _ (Sends-attempt _ (Sends-create p ha owns k _)) (λ _. Sends-record ha.name)
  Sends-put (some o) =
      Sends-if (λ b. requests_of m (plan_wanted m (some o) b)) (m.settled o) _ _ (Sends-pure done)
        (Sends-refresh o)

  Sends-with_object :
      (existing : Option (Object k))
      → Sends (requests_of m (plan_for m existing m.wanted)) (with_object p ha m existing)
  unfolding with_object
  Sends-with_object existing =
      Sends-if (λ b. requests_of m (plan_for m existing b)) m.wanted _ _ (Sends-put existing)
        (Sends-remove existing)

  after_read :
      (r : Result (Option (Object k))) (s : State W)
      → object_requests (continue (or_retry r) (with_object p ha m) s).1.log
        ≡ requests_of m (plan m r) ++ object_requests s.log
  after_read (ok existing) s = (Sends-with_object existing).at s
  after_read (err e) s = refl

  body-requests :
      (s : State W)
      → object_requests (managed_body p ha m s).1.log
        ≡ requests_of m (plan m (get p k m.ns_name s).0) ++ object_requests s.log
  unfolding managed_body attempt get ◌>>=◌
  body-requests s =
      let (r, w) = p.client_get k m.ns_name s.world in
      after_read (or_nil r) (record s { world = w })

  -- Where setting the controller reference of an object that is sent succeeds, the requests of one
  -- reconciliation that change an object are exactly those of the plan: none where the read failed, or
  -- where the object is not asked for and not there, or is asked for and as it should be; and else one,
  -- a deletion of an object that is not asked for, a replacement of one that is not as it should be, or
  -- a creation. That is so whatever the cluster answers to the writes.
  pub reconcile_managed-requests :
      (s : State W)
      → object_requests (reconcile_managed p ha m s).1.log
        ≡ requests_of m (plan m (get p k m.ns_name s).0) ++ object_requests s.log
  unfolding reconcile_managed finish
  reconcile_managed-requests s =
      deferred-requests p ha m.reason (finish (managed_body p ha m)) s ∙ body-requests s

module _ {W : Type 0} (p : Platform W) (ha : HermesAgent) {k : Kind} (m : Managed k) where
  settled_body :
      (s : State W) (o : Object k)
      → m.wanted ≡ true
      → (p.client_get k m.ns_name s.world).0 ≡ ok o
      → m.settled o ≡ true
      → managed_body p ha m s
        ≡ (next done, record s { world = (p.client_get k m.ns_name s.world).1 })
  unfolding managed_body attempt get ◌>>=◌ with_object put_object pure
  settled_body s o e g h = rw g (simp (e, h))

  -- An object that is asked for, and that the cluster shows as it should be, is left alone: the
  -- reconciler returns without error or delay, and neither the status nor the cluster is written.
  pub reconcile_managed-settled :
      (s : State W) (o : Object k)
      → m.wanted ≡ true
      → (p.client_get k m.ns_name s.world).0 ≡ ok o
      → m.settled o ≡ true
      → reconcile_managed p ha m s
        ≡ (done, record s { world = (p.client_get k m.ns_name s.world).1 })
  unfolding reconcile_managed finish deferred
  reconcile_managed-settled s o e g h = rw (settled_body s o e g h) refl

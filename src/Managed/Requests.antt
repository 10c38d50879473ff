-- ===== src/Managed/Requests.antt =====
-- What the reconcilers of the Service, the Ingress and the NetworkPolicy ask of the cluster
-- (internal/usecase/hermesagent_service.go, hermesagent_ingress.go and hermesagent_networkpolicy.go).
use hermes_agent_operator.Prelude.{
  Bool, true, false, Option, none, some, List, [], ◌∷◌, ◌++◌, ◌≡◌, inl, inr, refl, sym, ◌∙◌,
  Bool-cases,
}
use hermes_agent_operator.Objects.{NsName, Service, Ingress, NetworkPolicy}
use hermes_agent_operator.Api.Networking.{get_service, get_ingress}
use hermes_agent_operator.Api.Security.{get_network_policy}
use hermes_agent_operator.Api.Agent.{HermesAgent}
use hermes_agent_operator.Kube.Client.{
  Error, Result, ok, err, Platform, Kind, Object, service, ingress, network_policy,
}
use hermes_agent_operator.Kube.Exec.{State, Request, create, update, delete}
use hermes_agent_operator.Kube.Calls.{get}
use hermes_agent_operator.Managed.{Managed}
use hermes_agent_operator.Managed.Sends.{Owns, object_requests}
use hermes_agent_operator.Managed.Wanted.{
  HasPort, HasIngress, HasPolicy, service_on, service_off, ingress_on, ingress_off, policy_on,
  policy_off,
}
use hermes_agent_operator.Managed.Plan.{plan, requests_of, reconcile_managed-requests}
use hermes_agent_operator.Service.{
  build_service, carried_over, service_equal, managed_service, reconcile_service,
}
use hermes_agent_operator.Ingress.{build_ingress, ingress_equal, managed_ingress, reconcile_ingress}
use hermes_agent_operator.NetworkPolicy.{
  build_network_policy, network_policy_equal, managed_network_policy, reconcile_network_policy,
}

-- The requests for one object, from what the cluster showed of it: `On` is what the spec has if the object
-- is asked for, `built` the object that the spec asks for, given the one that is there, `renewed` that
-- object with what it takes over from the one that is there, and `same` the test of the two.
pub data Requests (k : Kind) (name : NsName) (On : Type 0) (built : On → Object k)
    (renewed : On → Object k → Object k) (same : On → Object k → Bool)
    : Result (Option (Object k)) → List Request → Type 0 where
  -- the read failed
  unread : {e : Error} → Requests k name On built renewed same (err e) []
  -- it is not asked for, and not there
  absent : ¬ On → Requests k name On built renewed same (ok none) []
  -- it is not asked for, and deleted
  removed :
      {o : Object k}
      → ¬ On
      → Requests k name On built renewed same (ok (some o)) (delete k name ∷ [])
  -- it is asked for, and not there
  created : (on : On) → Requests k name On built renewed same (ok none) (create k (built on) ∷ [])
  -- it is there as it is asked for
  left :
      {o : Object k} (on : On)
      → same on o ≡ true
      → Requests k name On built renewed same (ok (some o)) []
  -- it is there, and not as it is asked for
  replaced :
      {o : Object k} (on : On)
      → same on o ≡ false
      → Requests k name On built renewed same (ok (some o)) (update k (renewed on o) ∷ [])

-- A managed object is as its parts say.
record Says {k : Kind} (m : Managed k) (On : Type 0) (built : On → Object k)
    (renewed : On → Object k → Object k) (same : On → Object k → Bool) : Type 0 where
  wanted : m.wanted ≡ true → On
  unwanted : m.wanted ≡ false → ¬ On
  fresh : (on : On) → m.built none ≡ built on
  renewal : (on : On) (o : Object k) → m.built (some o) ≡ renewed on o
  test : (on : On) (o : Object k) → m.settled o ≡ same on o

module _ {k : Kind} (m : Managed k) (On : Type 0) (built : On → Object k)
    (renewed : On → Object k → Object k) (same : On → Object k → Bool)
    (says : Says m On built renewed same) where
  Requests-plan :
      (r : Result (Option (Object k)))
      → Requests k m.ns_name On built renewed same r (requests_of m (plan m r))
  Requests-plan (err e) = unread
  Requests-plan (ok none) = elim (Bool-cases m.wanted) [
    | inl e ↦ rw e (rw (says.fresh (says.wanted e)) (created (says.wanted e)))
    | inr e ↦ rw e (absent (says.unwanted e))
  ]
  Requests-plan (ok (some o)) = elim (Bool-cases m.wanted) [
    | inl e ↦ elim (Bool-cases (m.settled o)) [
      | inl t ↦ rw e (rw t (left (says.wanted e) (sym (says.test (says.wanted e) o) ∙ t)))
      | inr t ↦ rw e (
          rw t (
            rw (says.renewal (says.wanted e) o)
              (replaced (says.wanted e) (sym (says.test (says.wanted e) o) ∙ t))))
    ]
    | inr e ↦ rw e (removed (says.unwanted e))
  ]

-- The existing Service's version and ClusterIP.
abbrev pub renewed_service : Service → Service → Service
renewed_service desired o =
    let meta = desired.meta in
    record desired {
      cluster_ip = o.cluster_ip;
      meta = record meta { resource_version = o.meta.resource_version };
    }

abbrev pub renewed_ingress : Ingress → Ingress → Ingress
renewed_ingress desired o =
    let meta = desired.meta in
    record desired { meta = record meta { resource_version = o.meta.resource_version } }

abbrev pub renewed_policy : NetworkPolicy → NetworkPolicy → NetworkPolicy
renewed_policy desired o =
    let meta = desired.meta in
    record desired { meta = record meta { resource_version = o.meta.resource_version } }

Says-service :
    (ha : HermesAgent)
    → Says
        (managed_service ha)
        (HasPort ha)
        (λ on. build_service ha)
        (λ on. renewed_service (build_service ha))
        (λ on o. service_equal (carried_over (build_service ha) o) o)
unfolding build_service
Says-service ha = record {
  wanted = λ h. service_on ha (get_service ha.spec.networking) refl h;
  unwanted = λ h. service_off ha (get_service ha.spec.networking) refl h;
  fresh = λ on. refl;
  renewal = λ on o. refl;
  test = λ on o. refl;
}

Says-ingress :
    (ha : HermesAgent)
    → Says
        (managed_ingress ha)
        (HasIngress ha)
        (λ on. build_ingress ha on.0)
        (λ on. renewed_ingress (build_ingress ha on.0))
        (λ on o. ingress_equal (build_ingress ha on.0) o)
Says-ingress ha = record {
  wanted = λ h. ingress_on ha (get_ingress ha.spec.networking) refl h;
  unwanted = λ h. ingress_off ha (get_ingress ha.spec.networking) refl h;
  fresh = λ on. rw (on.1) refl;
  renewal = λ on o. rw (on.1) refl;
  test = λ on o. rw (on.1) refl;
}

Says-policy :
    (ha : HermesAgent)
    → Says
        (managed_network_policy ha)
        (HasPolicy ha)
        (λ on. build_network_policy ha on.0)
        (λ on. renewed_policy (build_network_policy ha on.0))
        (λ on o. network_policy_equal (build_network_policy ha on.0) o)
Says-policy ha = record {
  wanted = λ h. policy_on ha (get_network_policy ha.spec.security) refl h;
  unwanted = λ h. policy_off ha (get_network_policy ha.spec.security) refl h;
  fresh = λ on. rw (on.1) refl;
  renewal = λ on o. rw (on.1) refl;
  test = λ on o. rw (on.1) refl;
}

module _ {W : Type 0} (p : Platform W) (ha : HermesAgent) where
  abbrev pub own_name : NsName
  own_name = record { namespace = ha.namespace; name = ha.name }

  abbrev pub IsServiceRun : State W → List Request → Type 0
  IsServiceRun s qs =
      Requests service own_name (HasPort ha) (λ on. build_service ha)
        (λ on. renewed_service (build_service ha))
        (λ on o. service_equal (carried_over (build_service ha) o) o) (get p service own_name s).0
        qs

  abbrev pub IsIngressRun : State W → List Request → Type 0
  IsIngressRun s qs =
      Requests ingress own_name (HasIngress ha) (λ on. build_ingress ha on.0)
        (λ on. renewed_ingress (build_ingress ha on.0))
        (λ on o. ingress_equal (build_ingress ha on.0) o) (get p ingress own_name s).0 qs

  abbrev pub IsPolicyRun : State W → List Request → Type 0
  IsPolicyRun s qs =
      Requests network_policy own_name (HasPolicy ha) (λ on. build_network_policy ha on.0)
        (λ on. renewed_policy (build_network_policy ha on.0))
        (λ on o. network_policy_equal (build_network_policy ha on.0) o)
        (get p network_policy own_name s).0 qs

  -- Where setting the controller reference of an object that is sent succeeds: the requests of the
  -- reconcilers of the Service, of the Ingress and of the NetworkPolicy that change an object are, whatever
  -- the cluster answers to them, those of one case each, with the object of the agent's name and namespace
  -- that the cluster showed. None, if it could not be read, is neither asked for nor there, or is as it is
  -- asked for by the code's comparison; its deletion, if it is there and not asked for; its creation, as
  -- the builder makes it, if it is asked for and not there; and its update to what the builder makes, with
  -- its version and a Service's ClusterIP, if the comparison fails. A Service is asked for while the API
  -- server or the webhook is on or the spec has ports for it, an Ingress while the spec has one that is
  -- on, and a NetworkPolicy while the spec has one that is not switched off.
  pub reconcile_managed-Requests :
      Owns p
      → (s : State W)
      → ((qs : List Request) × IsServiceRun s qs
          × (object_requests (reconcile_service p ha s).1.log ≡ qs ++ object_requests s.log))
        × (((qs : List Request) × IsIngressRun s qs
              × (object_requests (reconcile_ingress p ha s).1.log ≡ qs ++ object_requests s.log))
            × ((qs : List Request) × IsPolicyRun s qs
                × (object_requests (reconcile_network_policy p ha s).1.log
                    ≡ qs ++ object_requests s.log)))
  unfolding reconcile_service reconcile_ingress reconcile_network_policy
  reconcile_managed-Requests owns s = (
    (
      _,
      Requests-plan _ _ _ _ _ (Says-service ha) _,
      reconcile_managed-requests p ha (managed_service ha) owns s,
    ),
    (
      (
        _,
        Requests-plan _ _ _ _ _ (Says-ingress ha) _,
        reconcile_managed-requests p ha (managed_ingress ha) owns s,
      ),
      (
        _,
        Requests-plan _ _ _ _ _ (Says-policy ha) _,
        reconcile_managed-requests p ha (managed_network_policy ha) owns s,
      ),
    ),
  )

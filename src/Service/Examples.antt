-- ===== src/Service/Examples.antt =====
-- The theorems on the managed objects and on the Service, at a concrete cluster.
use hermes_agent_operator.Prelude.{List, none, some, [], ◌∷◌, ◌++◌, ◌≡◌, ◌⊎◌, refl}
use hermes_agent_operator.Objects.{Service, ServicePort}
use hermes_agent_operator.Api.Agent.{HermesAgent}
use hermes_agent_operator.Kube.Client.{Result, ok, err, Kind, Object, service}
use hermes_agent_operator.Kube.Exec.{Request, done, update}
use hermes_agent_operator.Kube.Samples.{no_object, cluster, start, sample_agent}
use hermes_agent_operator.Managed.Sends.{object_requests}
use hermes_agent_operator.Managed.Requests.{
  IsServiceRun, IsIngressRun, IsPolicyRun, reconcile_managed-Requests,
}
use hermes_agent_operator.Ingress.{reconcile_ingress}
use hermes_agent_operator.NetworkPolicy.{reconcile_network_policy}
use hermes_agent_operator.Service.{
  build_service_ports, build_service, sent_service, reconcile_service,
}
use hermes_agent_operator.Service.Settles.{NoNodePorts, reconcile_service-settles}

abbrev agent : HermesAgent
agent = sample_agent none none

-- As it was created, with a ClusterIP.
abbrev stored : Service
stored = record (build_service agent) { cluster_ip = "10.0.0.7" }

abbrev shows_service : (k : Kind) → Result (Object k)
shows_service service = ok stored
shows_service _ = err no_object

reconcile_managed-Requests_example :
    ((qs : List Request) × IsServiceRun (cluster shows_service) agent start qs
      × (object_requests (reconcile_service (cluster shows_service) agent start).1.log ≡ qs ++ []))
    × (((qs : List Request) × IsIngressRun (cluster shows_service) agent start qs
          × (object_requests (reconcile_ingress (cluster shows_service) agent start).1.log
              ≡ qs ++ []))
        × ((qs : List Request) × IsPolicyRun (cluster shows_service) agent start qs
            × (object_requests (reconcile_network_policy (cluster shows_service) agent start).1.log
                ≡ qs ++ [])))
reconcile_managed-Requests_example =
    reconcile_managed-Requests (cluster shows_service) agent (λ k ha o. refl) start

-- As the API server keeps it, with a node port.
abbrev with_node_port : ServicePort
with_node_port = record {
  name = "api-server";
  port = 8642;
  target_port = 8642;
  protocol = "TCP";
  node_port = 30042;
  app_protocol = none;
}

abbrev allocated : Service
allocated = record stored { ports = with_node_port ∷ [] }

abbrev shows_allocated : (k : Kind) → Result (Object k)
shows_allocated service = ok allocated
shows_allocated _ = err no_object

reconcile_service-settles_example :
    (NoNodePorts allocated.ports
      × (reconcile_service (cluster shows_allocated) agent start ≡ (done, start)))
    ⊎ ((¬ NoNodePorts allocated.ports)
        × (object_requests (reconcile_service (cluster shows_allocated) agent start).1.log
            ≡ update service (sent_service agent (some allocated)) ∷ []))
unfolding build_service build_service_ports
reconcile_service-settles_example =
    reconcile_service-settles (cluster shows_allocated) agent start none allocated (λ k ha o. refl)
      refl tt refl (record { ports = (refl, tt); type = refl; annotations = refl })

-- ===== src/Lib.antt =====
-- hermes-agent-operator: a Kubernetes operator in Go whose resource, HermesAgent, stands for one agent:
-- a StatefulSet, its volume, its Secrets and ConfigMaps, its network objects, and an egress proxy.
--
-- A reconciliation (`Reconcile`, internal/usecase/hermesagent.go) reads the agent and runs one
-- reconciler for each resource, in a fixed order; the first that fails or asks to be called again ends
-- it. A reconciler compares what the cluster shows (`KubernetesClient`, internal/infras/kubernetes.go)
-- with what the spec wants (the accessors of api/v1alpha1), writes the difference, and records it in
-- the status.
--
--   Prelude, Prelude/*     library names, tests on numbers and texts, lists, maps with text keys
--   Objects                the Kubernetes objects, with the fields that the operator reads or writes
--   PodTemplate            the pod template of a StatefulSet, with the fields that the operator sets
--   Api, Api/*             the spec and its accessors: api/v1alpha1/hermesagent_*.go; Images has the
--                          two forms of an image override
--   Json                   JSON documents as encoding/json reads them
--   Kube/Client            what the operator calls and does not implement, as the record `Platform`
--   Kube/Exec              the actions of a reconciler: a `Call` returns a value or an error, an `Exec`
--                          goes on or has returned; both pass the state on
--   Kube/Calls             the methods of KubernetesClient
--   Kube/Writes            the rules by which the writes of a reconciler are followed through its code
--   Managed                what the reconcilers of the Service, the Ingress and the NetworkPolicy share
--   Managed/Sends          the rules by which the requests of an action are told exactly
--   Managed/Plan, Requests, Wanted
--                          what is sent for one object, as a function of what the cluster showed, and
--                          when the spec asks for it
--   Service                internal/usecase/hermesagent_service.go
--   Ingress                internal/usecase/hermesagent_ingress.go
--   NetworkPolicy          internal/usecase/hermesagent_networkpolicy.go
--   Conditions             internal/usecase/hermesagent_conditions.go, and the deferred report
--   PodStatus              internal/usecase/hermesagent_statefulset_podstatus.go
--   Snapshot               internal/usecase/hermesagent_snapshot.go
--   Restore                internal/usecase/hermesagent_restore.go
--   HermesConfigMap, HermesConfigMap/*
--                          internal/usecase/hermesagent_hermes_configmap.go, and in Paths one line of
--                          hermesagent_statefulset_hermes_scripts.go
--   HermesSecret           internal/usecase/hermesagent_hermes_secret.go
--   Role                   internal/usecase/hermesagent_role.go
--   ServiceAccount         internal/usecase/hermesagent_serviceaccount.go
--   SearxngConfigMap       internal/usecase/hermesagent_searxng_configmap.go
--   SearxngSecret          internal/usecase/hermesagent_searxng_secret.go
--   IronProxy              the part of iron-proxy's proxy.yaml that is rendered
--   Egress/Hosts, Claims, Resolve, Ports, Refs
--                          api/v1alpha1/hermesagent_egress.go
--   Egress/Ca              internal/usecase/hermesagent_egress_ca_secret.go
--   Egress/Mint, Proxy, Tokens
--                          internal/usecase/hermesagent_egress_secret.go
--   Workload, Workload/*   internal/usecase/hermesagent_statefulset.go, and egressPodInputs of
--                          hermesagent_statefulset_egress.go
--   Scripts, Scripts/*     internal/usecase/hermesagent_statefulset_hermes_scripts.go: the shell scripts
--                          of the init containers, as texts
--   Pod, Pod/*             buildStatefulSet and the builders of its parts:
--                          internal/usecase/hermesagent_statefulset.go, and
--                          hermesagent_statefulset_hermes.go, _searxng.go, _camofox.go and _egress.go
--                          beside it; Found, Extends, Home, Labels, Items, Ports, Tokens and
--                          Mounts have what is proved of the whole, Scripts/Split of the words of a
--                          command
--   Reconcile              internal/usecase/hermesagent.go
--   Controller, Controller/*
--                          internal/controller/hermesagent_controller.go
--   Kube/Samples, */Examples
--                          a concrete cluster and agents, and each theorem at one of them
--
-- The state of a run is the agent's status in memory, an abstract world and the log of the requests
-- that write, the newest first. Every answer comes from `Platform`, over a world of any type, so a
-- statement about a reconciler holds whatever the cluster answers, conflicts and failures included,
-- and whatever others do between two calls. A long body is split into definitions that take the answer
-- they test; each stands for the code from that test to the end of the body. No loop needs fuel: each
-- is a recursion on the list that it goes through.
--
-- A Go map is a list of entries; a time is a number of nanoseconds since Go's zero time; ports are
-- natural numbers, since the resource's schema keeps them far below 2 ^ 31. Log lines, metrics other
-- than the counted result, and the contexts are left out.
--
-- A configuration document of the agent is its parsed JSON; the YAML library that reads and prints it is
-- a parameter, and so is the text of the float64 that a number is read as, for a number in its range. The profiles are gone through in the order of their list, or sorted by name where the
-- source sorts them.
--
-- A text of the spec is trimmed and lowered as ASCII. fmt's verb %q, with which most names and values get
-- into a script, is a parameter; so are the marshalling of the StatefulSet and the hash of it.
--
-- Not modelled: what a shell does with a script; the heartbeat and the metrics, which are input and
-- output; the registration with controller-runtime and the start of the manager; parameter structs and
-- interfaces without behaviour; generated code, manifests and charts.
pub mod Prelude
pub mod PodTemplate
pub mod Objects
pub mod IronProxy
pub mod Json
pub mod Api
pub mod Kube
pub mod Conditions
pub mod PodStatus
pub mod Snapshot
pub mod Restore
pub mod Egress
pub mod Managed
pub mod Service
pub mod Ingress
pub mod NetworkPolicy
pub mod HermesSecret
pub mod Role
pub mod ServiceAccount
pub mod SearxngSecret
pub mod SearxngConfigMap
pub mod Workload
pub mod HermesConfigMap
pub mod Scripts
pub mod Pod
pub mod Reconcile
pub mod Controller

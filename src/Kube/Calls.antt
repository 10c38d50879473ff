-- ===== src/Kube/Calls.antt =====
-- KubernetesClient (internal/infras/kubernetes.go), method by method. A read of an object that is not
-- there is nil and no error; a deletion of such an object is no error; what the operator creates or
-- updates gets the agent as its controller first, but for VolumeSnapshots, which get a label instead.
use hermes_agent_operator.Prelude.{ℕ, String, Option, none, some, List, [], ◌∷◌, insert}
use hermes_agent_operator.Objects.{
  NsName, Secret, ConfigMap, Pod, StatefulSet, PersistentVolumeClaim, ServiceAccount, Role,
  RoleBinding, Service, Ingress, NetworkPolicy,
}
use hermes_agent_operator.Api.Agent.{HermesAgent, HermesAgentStatus}
use hermes_agent_operator.Kube.Client.{
  Error, Cause, not_found, Result, ok, err, Kind, Object, pod, config_map, secret, stateful_set,
  service_account, role, role_binding, service, ingress, network_policy, persistent_volume_claim,
  volume_snapshot, volume_snapshot_list, VolumeSnapshot, Platform,
}
use hermes_agent_operator.Kube.Exec.{State, Request, Call}

-- `if errors.IsNotFound(err) { return nil, nil }`.
abbrev absent_is_nil : {A : Type 0} → Error → Cause → Result (Option A)
absent_is_nil e not_found = ok none
absent_is_nil e _ = err e

abbrev pub or_nil : {A : Type 0} → Result A → Result (Option A)
or_nil (ok a) = ok (some a)
or_nil (err e) = absent_is_nil e e.cause

abbrev ignored : Error → Cause → Result (Unit {0})
ignored e not_found = ok tt
ignored e _ = err e

-- `client.IgnoreNotFound`.
abbrev pub ignore_not_found : Result (Unit {0}) → Result (Unit {0})
ignore_not_found (ok u) = ok tt
ignore_not_found (err e) = ignored e e.cause

abbrev pub snapshot_agent_label : String
snapshot_agent_label = "agents.hermeum.app/agent"

-- The label by which a snapshot is listed as the agent's.
abbrev pub labelled : HermesAgent → VolumeSnapshot → VolumeSnapshot
labelled ha snapshot =
    let meta = snapshot.meta in
    record snapshot {
      meta = record meta { labels = insert meta.labels snapshot_agent_label ha.name };
    }

-- The outcome of a write whose request is `q`.
abbrev pub sent :
    {W : Type 0} → State W → Request → Result (Unit {0}) × W → Result (Unit {0}) × State W
sent s q (r, w) = (r, record s { world = w; log = q ∷ s.log })

module _ {W : Type 0} (p : Platform W) where
  unfoldable pub get : (k : Kind) → NsName → Call W (Option (Object k))
  get k n s = let (r, w) = p.client_get k n s.world in (or_nil r, record s { world = w })

  unfoldable pub delete : Kind → NsName → Call W (Unit {0})
  delete k n s =
      let (r, w) = p.client_delete k n s.world in
      sent s (Request.delete k n) (ignore_not_found r, w)

  -- The request, once the controller reference is set.
  abbrev pub create_owned : (k : Kind) → Result (Object k) → Call W (Unit {0})
  create_owned k (ok o) s = sent s (Request.create k o) (p.client_create k o s.world)
  create_owned k (err e) s = (err e, s)

  abbrev pub update_owned : (k : Kind) → Result (Object k) → Call W (Unit {0})
  update_owned k (ok o) s = sent s (Request.update k o) (p.client_update k o s.world)
  update_owned k (err e) s = (err e, s)

  unfoldable pub create : HermesAgent → (k : Kind) → Object k → Call W (Unit {0})
  create ha k o = create_owned k (p.set_controller_reference k ha o)

  unfoldable pub update : HermesAgent → (k : Kind) → Object k → Call W (Unit {0})
  update ha k o = update_owned k (p.set_controller_reference k ha o)

  abbrev agent_or_nil :
      State W
      → Result (HermesAgent × HermesAgentStatus) × W
      → Result (Option (HermesAgent × HermesAgentStatus)) × State W
  agent_or_nil s (r, w) = (or_nil r, record s { world = w })

  unfoldable pub get_hermes_agent : NsName → Call W (Option (HermesAgent × HermesAgentStatus))
  get_hermes_agent n s = agent_or_nil s (p.client_get_agent n s.world)

  -- The status of the server's answer becomes the status in memory.
  abbrev pub status_sent : State W → Result HermesAgentStatus × W → Result (Unit {0}) × State W
  status_sent s (ok status, w) =
      (ok tt, record { status = status; world = w; log = Request.update_status s.status ∷ s.log })
  status_sent s (err e, w) =
      (err e, record s { world = w; log = Request.update_status s.status ∷ s.log })

  unfoldable pub update_hermes_agent_status : HermesAgent → Call W (Unit {0})
  update_hermes_agent_status ha s = status_sent s (p.client_update_status ha s.status s.world)

  abbrev pub get_pod : NsName → Call W (Option Pod)
  get_pod = get pod

  abbrev pub delete_pod : NsName → Call W (Unit {0})
  delete_pod = delete pod

  abbrev pub get_config_map : NsName → Call W (Option ConfigMap)
  get_config_map = get config_map

  abbrev pub create_config_map : HermesAgent → ConfigMap → Call W (Unit {0})
  create_config_map ha = create ha config_map

  abbrev pub update_config_map : HermesAgent → ConfigMap → Call W (Unit {0})
  update_config_map ha = update ha config_map

  abbrev pub delete_config_map : NsName → Call W (Unit {0})
  delete_config_map = delete config_map

  abbrev pub get_secret : NsName → Call W (Option Secret)
  get_secret = get secret

  abbrev pub create_secret : HermesAgent → Secret → Call W (Unit {0})
  create_secret ha = create ha secret

  abbrev pub update_secret : HermesAgent → Secret → Call W (Unit {0})
  update_secret ha = update ha secret

  abbrev pub delete_secret : NsName → Call W (Unit {0})
  delete_secret = delete secret

  abbrev pub get_stateful_set : NsName → Call W (Option StatefulSet)
  get_stateful_set = get stateful_set

  abbrev pub create_stateful_set : HermesAgent → StatefulSet → Call W (Unit {0})
  create_stateful_set ha = create ha stateful_set

  abbrev pub update_stateful_set : HermesAgent → StatefulSet → Call W (Unit {0})
  update_stateful_set ha = update ha stateful_set

  abbrev pub delete_stateful_set : NsName → Call W (Unit {0})
  delete_stateful_set = delete stateful_set

  abbrev pub get_service_account : NsName → Call W (Option ServiceAccount)
  get_service_account = get service_account

  abbrev pub create_service_account : HermesAgent → ServiceAccount → Call W (Unit {0})
  create_service_account ha = create ha service_account

  abbrev pub update_service_account : HermesAgent → ServiceAccount → Call W (Unit {0})
  update_service_account ha = update ha service_account

  abbrev pub delete_service_account : NsName → Call W (Unit {0})
  delete_service_account = delete service_account

  abbrev pub get_role : NsName → Call W (Option Role)
  get_role = get role

  abbrev pub create_role : HermesAgent → Role → Call W (Unit {0})
  create_role ha = create ha role

  abbrev pub update_role : HermesAgent → Role → Call W (Unit {0})
  update_role ha = update ha role

  abbrev pub delete_role : NsName → Call W (Unit {0})
  delete_role = delete role

  abbrev pub get_role_binding : NsName → Call W (Option RoleBinding)
  get_role_binding = get role_binding

  abbrev pub create_role_binding : HermesAgent → RoleBinding → Call W (Unit {0})
  create_role_binding ha = create ha role_binding

  abbrev pub update_role_binding : HermesAgent → RoleBinding → Call W (Unit {0})
  update_role_binding ha = update ha role_binding

  abbrev pub delete_role_binding : NsName → Call W (Unit {0})
  delete_role_binding = delete role_binding

  abbrev pub get_service : NsName → Call W (Option Service)
  get_service = get service

  abbrev pub create_service : HermesAgent → Service → Call W (Unit {0})
  create_service ha = create ha service

  abbrev pub update_service : HermesAgent → Service → Call W (Unit {0})
  update_service ha = update ha service

  abbrev pub delete_service : NsName → Call W (Unit {0})
  delete_service = delete service

  abbrev pub get_ingress : NsName → Call W (Option Ingress)
  get_ingress = get ingress

  abbrev pub create_ingress : HermesAgent → Ingress → Call W (Unit {0})
  create_ingress ha = create ha ingress

  abbrev pub update_ingress : HermesAgent → Ingress → Call W (Unit {0})
  update_ingress ha = update ha ingress

  abbrev pub delete_ingress : NsName → Call W (Unit {0})
  delete_ingress = delete ingress

  abbrev pub get_network_policy : NsName → Call W (Option NetworkPolicy)
  get_network_policy = get network_policy

  abbrev pub create_network_policy : HermesAgent → NetworkPolicy → Call W (Unit {0})
  create_network_policy ha = create ha network_policy

  abbrev pub update_network_policy : HermesAgent → NetworkPolicy → Call W (Unit {0})
  update_network_policy ha = update ha network_policy

  abbrev pub delete_network_policy : NsName → Call W (Unit {0})
  delete_network_policy = delete network_policy

  abbrev pub get_persistent_volume_claim : NsName → Call W (Option PersistentVolumeClaim)
  get_persistent_volume_claim = get persistent_volume_claim

  abbrev pub create_persistent_volume_claim :
      HermesAgent → PersistentVolumeClaim → Call W (Unit {0})
  create_persistent_volume_claim ha = create ha persistent_volume_claim

  abbrev pub get_volume_snapshot : NsName → Call W (Option VolumeSnapshot)
  get_volume_snapshot = get volume_snapshot

  unfoldable pub list_volume_snapshots : String → String → Call W (List VolumeSnapshot)
  list_volume_snapshots namespace agent_name s =
      let (r, w) = p.client_list namespace ((snapshot_agent_label, agent_name) ∷ []) s.world in
      (r, record s { world = w })

  -- No controller reference: only the label that attributes the snapshot to the agent.
  unfoldable pub create_volume_snapshot : HermesAgent → VolumeSnapshot → Call W (Unit {0})
  create_volume_snapshot ha snapshot = create_owned volume_snapshot (ok (labelled ha snapshot))

  -- `time.Now()`.
  unfoldable pub read_clock : State W → ℕ × State W
  read_clock s = let (t, w) = p.now s.world in (t, record s { world = w })

  -- `rand.Read` of so many bytes, printed with %x.
  unfoldable pub read_random : ℕ → Call W String
  read_random n s = let (r, w) = p.rand_hex n s.world in (r, record s { world = w })

  -- The request names the kind of the list, as the source does.
  abbrev pub delete_volume_snapshot : NsName → Call W (Unit {0})
  delete_volume_snapshot = delete volume_snapshot_list

-- ===== src/Controller.antt =====
-- The controller (internal/controller/hermesagent_controller.go): what a reconciliation gives back to
-- controller-runtime, and the agents that are reconciled when a ConfigMap or a Secret changes.
pub mod Covers
mod Examples
use hermes_agent_operator.Prelude.{
  String, Bool, Option, none, some, List, [], ◌∷◌, ◌++◌, contains, StringMap, if_some,
  if◌then◌else◌,
}
use hermes_agent_operator.Objects.{NsName, StatefulSet}
use hermes_agent_operator.Api.Hermes.{HermesProfile, get_config_map_ref, get_profiles}
use hermes_agent_operator.Api.Agent.{HermesAgent}
use hermes_agent_operator.Kube.Client.{Error, Result, ok, err, Platform}
use hermes_agent_operator.Kube.Exec.{State, Outcome, Handler}
use hermes_agent_operator.Egress.Refs.{get_egress_source_secret_names}
use hermes_agent_operator.HermesConfigMap.Data.{profile_ref}
use hermes_agent_operator.Reconcile.{reconcile}

-- With an error, the requeue is left to controller-runtime's back-off.
abbrev pub reported : Outcome → Outcome
reported o = if_some o.error (λ e. record { requeue_after = 0; error = some e }) o

unfoldable pub controller_reconcile : {W : Type 0} → Platform W → NsName → Handler W
controller_reconcile p n s = let (r, s') = reconcile p n s in (reported r.0, s')

-- The loop over the profiles.
abbrev pub profile_source_names : StringMap HermesProfile → List String
profile_source_names [] = []
profile_source_names ((name, profile) ∷ profiles) =
    let rest = profile_source_names profiles in
    if_some (profile_ref profile) (λ ref. ref.name ∷ rest) rest

abbrev pub default_source_names : HermesAgent → List String
default_source_names ha = if_some (get_config_map_ref ha.spec.hermes) (λ ref. ref.name ∷ []) []

unfoldable pub get_config_source_config_map_names : HermesAgent → List String
get_config_source_config_map_names ha =
    default_source_names ha ++ profile_source_names (get_profiles ha.spec.hermes)

-- `client.ObjectKeyFromObject`.
abbrev pub object_key : HermesAgent → NsName
object_key ha = record { namespace = ha.namespace; name = ha.name }

-- The loop over the agents, for those whose sources have the name.
abbrev pub requests_for : (HermesAgent → List String) → String → List HermesAgent → List NsName
requests_for sources name [] = []
requests_for sources name (ha ∷ agents) =
    let rest = requests_for sources name agents in
    if contains (sources ha) name then object_key ha ∷ rest else rest

-- A list that cannot be read asks for nothing.
abbrev pub requests_of :
    (HermesAgent → List String) → String → Result (List HermesAgent) → List NsName
requests_of sources name (ok agents) = requests_for sources name agents
requests_of sources name (err e) = []

-- `list_agents` is the client's List in a namespace.
module _ (list_agents : String → Result (List HermesAgent)) where
  unfoldable pub agents_referencing_config_map : NsName → List NsName
  agents_referencing_config_map obj =
      requests_of get_config_source_config_map_names obj.name (list_agents obj.namespace)

  unfoldable pub agents_referencing_secret : NsName → List NsName
  agents_referencing_secret obj =
      requests_of get_egress_source_secret_names obj.name (list_agents obj.namespace)

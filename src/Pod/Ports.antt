-- ===== src/Pod/Ports.antt =====
-- The ports of the agent's container, against those that the NetworkPolicy opens.
use hermes_agent_operator.Prelude.{List, [], ◌∷◌, map, if_some, if◌then◌else◌}
use hermes_agent_operator.PodTemplate.{ContainerPort}
use hermes_agent_operator.Objects.{StatefulSet, NetworkPolicyPort}
use hermes_agent_operator.Api.Hermes.{
  get_ports, get_api_server, get_webhook, api_server_enabled, api_server_port, webhook_enabled,
  webhook_port,
}
use hermes_agent_operator.Api.Agent.{HermesAgent}
use hermes_agent_operator.NetworkPolicy.{declared_port}
use hermes_agent_operator.NetworkPolicy
use hermes_agent_operator.Pod.Parts.{hermes_container_name}
use hermes_agent_operator.Pod.Found.{find_container, containers}

-- The ports that the agent's container declares.
abbrev pub agent_ports : StatefulSet → List ContainerPort
agent_ports sts = if_some (find_container hermes_container_name (containers sts)) (λ c. c.ports) []

-- What the policy opens for the API server and for the webhook.
abbrev api_ports : HermesAgent → List NetworkPolicyPort
api_ports ha =
    if api_server_enabled (get_api_server ha.spec.hermes)
    then NetworkPolicy.tcp_port (api_server_port (get_api_server ha.spec.hermes)) ∷ []
    else []

abbrev webhook_ports : HermesAgent → List NetworkPolicyPort
webhook_ports ha =
    if webhook_enabled (get_webhook ha.spec.hermes)
    then NetworkPolicy.tcp_port (webhook_port (get_webhook ha.spec.hermes)) ∷ []
    else []

abbrev declared : HermesAgent → List NetworkPolicyPort
declared ha = map declared_port (get_ports ha.spec.hermes)

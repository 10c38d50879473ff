-- ===== src/Controller/Examples.antt =====
-- The theorem on the watch, at a concrete cluster.
use hermes_agent_operator.Prelude.{
  String, none, some, List, [], ◌∷◌, ◌≡◌, refl, arith, eq_iff, str_eq, inl, if◌then◌else◌,
}
use hermes_agent_operator.Objects.{NsName, ConfigMap}
use hermes_agent_operator.Api.Agent.{HermesAgent}
use hermes_agent_operator.Kube.Client.{Result, ok, err, Kind, Object, config_map, Platform}
use hermes_agent_operator.Kube.Samples.{
  cluster, everything, bare_hermes, meta_of, no_object, sample_agent,
}
use hermes_agent_operator.HermesConfigMap.{resolve_config_documents}
use hermes_agent_operator.HermesConfigMap.Reads.{SameBut}
use hermes_agent_operator.Controller.{
  get_config_source_config_map_names, object_key, agents_referencing_config_map,
}
use hermes_agent_operator.Controller.Covers.{Has, agents_referencing_config_map-covers}

abbrev settings : String → ConfigMap
settings name = record { meta = meta_of name; contents = ("config.yaml", name) ∷ [] }

abbrev shown : (k : Kind) → NsName → Result (Object k)
shown config_map n = ok (settings n.name)
shown k n = everything k

-- Without the ConfigMap "other".
abbrev edited : (k : Kind) → NsName → Result (Object k)
edited config_map n = if str_eq n.name "other" then err no_object else ok (settings n.name)
edited k n = everything k

abbrev showing : ((k : Kind) → NsName → Result (Object k)) → Platform (Unit {0})
showing f = record (cluster everything) { client_get = λ k n w. (f k n, w) }

-- Its document is in the ConfigMap "settings".
abbrev agent : HermesAgent
agent =
    let base = sample_agent none none in
    let spec = base.spec in
    record base {
      spec = record spec {
        hermes = some (record bare_hermes {
          config = some (record {
            raw = none;
            config_map_ref = some (record { name = "settings"; key = "config.yaml" });
            api_server = none;
            webhook = none;
          });
        });
      };
    }

abbrev other : NsName
other = record { namespace = "ns"; name = "other" }

abbrev listed : String → Result (List HermesAgent)
listed namespace = ok (agent ∷ [])

is_unasked : Has (object_key agent) (agents_referencing_config_map listed other) → ⊥
unfolding agents_referencing_config_map get_config_source_config_map_names
is_unasked h = h

is_asked :
    agents_referencing_config_map listed (record { namespace = "ns"; name = "settings" })
    ≡ object_key agent ∷ []
unfolding agents_referencing_config_map get_config_source_config_map_names
is_asked = refl

is_same : SameBut other (showing shown) (showing edited)
is_same = (λ n apart w. ground (arith, eq_iff n.name "other", apart), λ text. refl)

agents_referencing_config_map-covers_example :
    resolve_config_documents (showing shown) agent ≡ resolve_config_documents (showing edited) agent
agents_referencing_config_map-covers_example =
    agents_referencing_config_map-covers (showing shown) (showing edited) listed (agent ∷ []) agent
      other refl (inl refl) is_unasked is_same

-- ===== src/Pod/Found.antt =====
-- The container that a name finds, and what the builders behind the first do to the agent's.
use hermes_agent_operator.Prelude.{
  String, Bool, true, false, Option, none, some, List, [], ◌∷◌, ◌++◌, ◌≡◌, refl, str_eq, arith,
  eq_iff, if◌then◌else◌,
}
use hermes_agent_operator.PodTemplate.{Container}
use hermes_agent_operator.Objects.{StatefulSet}
use hermes_agent_operator.Api.Agent.{
  HermesAgent, SearxNg, Camofox, searxng_enabled, camofox_enabled,
}
use hermes_agent_operator.Api.Egress.{Egress, egress_enabled}
use hermes_agent_operator.Workload.Inputs.{StatefulSetInputs}
use hermes_agent_operator.Pod.Parts.{
  hermes_container_name, change_container, add_env, literal, map_spec,
}
use hermes_agent_operator.Pod.{build_stateful_set, bare_stateful_set}
use hermes_agent_operator.Pod.Hermes.{agent_container, build_hermes_container}
use hermes_agent_operator.Pod.Sidecars.{
  build_searxng_container, build_camofox_container, if_searxng, if_camofox, add_searxng,
  add_camofox, searxng_container, camofox_container,
}
use hermes_agent_operator.Pod.Egress.{
  build_egress_container, if_egress, with_tokens, add_egress, with_egress_hash, egress_container,
}

-- The first container of the name (findContainer).
abbrev pub find_container : String → List Container → Option Container
find_container name [] = none
find_container name (c ∷ cs) = if str_eq c.name name then some c else find_container name cs

find-append :
    (name : String) (c : Container) (cs ds : List Container)
    → find_container name cs ≡ some c
    → find_container name (cs ++ ds) ≡ some c
find-append name c [] ds e = ground arith
find-append name c (d ∷ cs) ds e = ground (arith, find-append name c cs ds)

find-change :
    (name : String) (f : Container → Container) (c : Container) (cs : List Container)
    → (f c).name ≡ c.name
    → find_container name cs ≡ some c
    → find_container name (change_container name f cs) ≡ some (f c)
find-change name f c [] k e = ground arith
find-change name f c (d ∷ cs) k e = ground (
  arith,
  eq_iff d.name name,
  eq_iff c.name name,
  eq_iff (f d).name name,
  find-change name f c cs k,
)

-- What a builder behind the first does to the containers.
find-extended :
    (f : Container → Container) (c : Container) (cs ds : List Container)
    → (f c).name ≡ c.name
    → find_container hermes_container_name cs ≡ some c
    → find_container hermes_container_name (change_container hermes_container_name f cs ++ ds)
      ≡ some (f c)
find-extended f c cs ds k e =
    find-append hermes_container_name (f c) (change_container hermes_container_name f cs) ds
      (find-change hermes_container_name f c cs k e)

abbrev pub containers : StatefulSet → List Container
containers sts = sts.template.spec.containers

abbrev pub with_url : Bool → String → String → Container → Container
with_url b name url c = if b then add_env (literal name url ∷ []) c else c

abbrev pub with_tokens_if : Bool → HermesAgent → List String → Container → Container
with_tokens_if b ha names c = if b then with_tokens ha names c else c

-- The agent's container with the addresses of the sidecars.
abbrev pub with_urls : HermesAgent → Container
with_urls ha = with_url (camofox_enabled ha.spec.camofox) "CAMOFOX_URL" "http://localhost:9377" (
    with_url (searxng_enabled ha.spec.searxng) "SEARXNG_URL" "http://localhost:8080"
      (agent_container ha))

-- The agent's container when the StatefulSet is built.
abbrev pub whole_agent_container : HermesAgent → StatefulSetInputs → Container
whole_agent_container ha inputs =
    with_tokens_if (egress_enabled ha.spec.egress) ha inputs.egress_token_names (with_urls ha)

find-searxng :
    (ha : HermesAgent) (sx : Option SearxNg) (sts : StatefulSet) (c : Container)
    → find_container hermes_container_name (containers sts) ≡ some c
    → find_container hermes_container_name (containers (if_searxng ha sx sts))
      ≡ some (with_url (searxng_enabled sx) "SEARXNG_URL" "http://localhost:8080" c)
find-searxng ha none sts c e = e
find-searxng ha (some sx) sts c e =
    elim sx.enabled
      as (λ b.
        find_container hermes_container_name
          (containers (if b then map_spec (add_searxng ha sx) sts else sts))
        ≡ some (with_url b "SEARXNG_URL" "http://localhost:8080" c)) [
          | true ↦
              find-extended (add_env (literal "SEARXNG_URL" "http://localhost:8080" ∷ [])) c
                (containers sts) (searxng_container ha sx ∷ []) refl e
          | false ↦ e
        ]

find-camofox :
    (ha : HermesAgent) (cx : Option Camofox) (sts : StatefulSet) (c : Container)
    → find_container hermes_container_name (containers sts) ≡ some c
    → find_container hermes_container_name (containers (if_camofox ha cx sts))
      ≡ some (with_url (camofox_enabled cx) "CAMOFOX_URL" "http://localhost:9377" c)
find-camofox ha none sts c e = e
find-camofox ha (some cx) sts c e =
    elim cx.enabled
      as (λ b.
        find_container hermes_container_name
          (containers (if b then map_spec (add_camofox ha cx) sts else sts))
        ≡ some (with_url b "CAMOFOX_URL" "http://localhost:9377" c)) [
          | true ↦
              find-extended (add_env (literal "CAMOFOX_URL" "http://localhost:9377" ∷ [])) c
                (containers sts) (camofox_container cx ∷ []) refl e
          | false ↦ e
        ]

find-egress :
    (ha : HermesAgent) (eg : Option Egress) (sts : StatefulSet) (names : List String)
    (hash : String) (c : Container)
    → find_container hermes_container_name (containers sts) ≡ some c
    → find_container hermes_container_name (containers (if_egress ha eg names hash sts))
      ≡ some (with_tokens_if (egress_enabled eg) ha names c)
find-egress ha none sts names hash c e = e
find-egress ha (some eg) sts names hash c e =
    elim eg.enabled
      as (λ b.
        find_container hermes_container_name (
          containers
            (if b then map_spec (add_egress ha eg names) (with_egress_hash hash sts) else sts))
        ≡ some (with_tokens_if b ha names c)) [
          | true ↦
              find-extended (with_tokens ha names) c (containers sts) (egress_container ha eg ∷ [])
                refl e
          | false ↦ e
        ]

-- In the built StatefulSet the agent's name finds the agent's container, with what the other builders
-- add to it, whatever containers the user adds.
pub find-build_stateful_set :
    (q : String → String) (ha : HermesAgent) (inputs : StatefulSetInputs)
    → find_container hermes_container_name (containers (build_stateful_set q ha inputs))
      ≡ some (whole_agent_container ha inputs)
unfolding build_stateful_set build_hermes_container build_searxng_container build_camofox_container
    build_egress_container
find-build_stateful_set q ha inputs =
    let hermes = build_hermes_container q ha (bare_stateful_set ha inputs) in
    let searxng = if_searxng ha ha.spec.searxng hermes in
    let camofox = if_camofox ha ha.spec.camofox searxng in
    let egress = if_egress ha ha.spec.egress inputs.egress_token_names inputs.egress_hash camofox in
    find-append hermes_container_name (whole_agent_container ha inputs) (containers egress)
      ha.spec.sidecars
      (find-egress ha ha.spec.egress camofox inputs.egress_token_names inputs.egress_hash
        (with_urls ha)
        (find-camofox ha ha.spec.camofox searxng _
          (find-searxng ha ha.spec.searxng hermes (agent_container ha) refl)))

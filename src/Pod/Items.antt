-- ===== src/Pod/Items.antt =====
-- The keys that the pod takes from the operator's own ConfigMap and Secret
-- (internal/usecase/hermesagent_statefulset_hermes.go).
use hermes_agent_operator.Prelude.{
  String, StringMap, Bool, true, false, Option, List, [], ◌∷◌, ◌≡◌, ◌∙◌, ap, refl, is_some, lookup,
  lookup-insert, All, All-append, subst, decimal, join, str_eq, arith, ◌&&◌, ◌||◌,
}
use hermes_agent_operator.PodTemplate.{KeyToPath}
use hermes_agent_operator.Api.Hermes.{
  HermesApiServer, HermesWebhook, get_api_server, get_webhook, api_server_enabled, api_server_port,
  webhook_enabled, webhook_port, get_cors_origins, get_profiles, get_workspace,
}
use hermes_agent_operator.Api.Agent.{HermesAgent, searxng_enabled, camofox_enabled}
use hermes_agent_operator.Objects.{Secret}
use hermes_agent_operator.Kube.Client.{Platform, ok, on_ok_ok, ok_injective}
use hermes_agent_operator.Kube.Exec.{State, next}
use hermes_agent_operator.HermesSecret.{
  api_on, webhook_on, api_server_key, webhook_secret, build_hermes_secret,
}
use hermes_agent_operator.HermesSecret.Kept.{build_hermes_secret-keeps}
use hermes_agent_operator.HermesConfigMap.Data.{
  put_if, put_env, some_origins, ResolvedConfigDocuments, default_document, put_document,
  put_workspace, put_profiles, build_hermes_config_map_data,
}
use hermes_agent_operator.Pod.Parts.{item}
use hermes_agent_operator.Pod.DotEnv.{
  items_if, any_items, build_operator_dot_env_items, build_profile_sidecar_dot_env_items,
  build_operator_dot_env_secret_items,
}

-- Each item's key is among the keys.
abbrev pub AllThere : StringMap String → List KeyToPath → Type 0
AllThere m items = All (λ i. is_some (lookup m i.key) ≡ true) items

-- The entries that are put where a test holds, one behind the other.
puts : List (Bool × String × String) → StringMap String → StringMap String
puts [] m = m
puts ((b, k, v) ∷ xs) m = puts xs (put_if b k v m)

-- An entry is put for the key.
puts_key : List (Bool × String × String) → String → Bool
puts_key [] j = false
puts_key ((b, k, v) ∷ xs) j = (str_eq k j && b) || puts_key xs j

lookup-put_if :
    (b : Bool) (k v : String) (m : StringMap String) (j : String)
    → is_some (lookup (put_if b k v m) j) ≡ ((str_eq k j && b) || is_some (lookup m j))
lookup-put_if true k v m j = ground (arith, lookup-insert m k j v)
lookup-put_if false k v m j = ground arith

lookup-puts :
    (xs : List (Bool × String × String)) (m : StringMap String) (j : String)
    → is_some (lookup (puts xs m) j) ≡ (puts_key xs j || is_some (lookup m j))
unfolding puts puts_key
lookup-puts [] m j = refl
lookup-puts ((b, k, v) ∷ xs) m j =
    let rest = lookup-puts xs (put_if b k v m) j in
    let this = lookup-put_if b k v m j in ground arith

items_if-AllThere :
    (m : StringMap String) (b : Bool) (items : List KeyToPath)
    → (b ≡ true → AllThere m items)
    → AllThere m (items_if b items)
items_if-AllThere m true items h = h refl
items_if-AllThere m false items h = tt

any_origins : (origins : List String) → any_items origins ≡ true → some_origins origins ≡ true
any_origins [] h = h
any_origins (o ∷ os) h = refl

module _ (ha : HermesAgent) (m : StringMap String) where
  abbrev api : Option HermesApiServer
  api = get_api_server ha.spec.hermes

  abbrev hook : Option HermesWebhook
  hook = get_webhook ha.spec.hermes

  abbrev entries : List (Bool × String × String)
  entries =
      (api_server_enabled api, "API_SERVER_ENABLED", "true")
      ∷ (api_server_enabled api, "API_SERVER_HOST", "0.0.0.0")
      ∷ (api_server_enabled api, "API_SERVER_PORT", decimal (api_server_port api))
      ∷ (
        api_server_enabled api && some_origins (get_cors_origins api),
        "API_SERVER_CORS_ORIGINS",
        join "," (get_cors_origins api),
      )
      ∷ (webhook_enabled hook, "WEBHOOK_ENABLED", "true")
      ∷ (webhook_enabled hook, "WEBHOOK_PORT", decimal (webhook_port hook))
      ∷ (searxng_enabled ha.spec.searxng, "SEARXNG_URL", "http://localhost:8080")
      ∷ (camofox_enabled ha.spec.camofox, "CAMOFOX_URL", "http://localhost:9377")
      ∷ []

  put_env_lem : put_env ha m ≡ puts entries m
  unfolding puts
  put_env_lem = refl

  there : (k : String) → puts_key entries k ≡ true → is_some (lookup (put_env ha m) k) ≡ true
  there k h =
      ap (λ (o : StringMap String). is_some (lookup o k)) put_env_lem
      ∙ lookup-puts entries m k
      ∙ rw h refl

  cors_there :
      (b : Bool)
      → api_server_enabled api ≡ true
      → (b ≡ true → some_origins (get_cors_origins api) ≡ true)
      → AllThere (put_env ha m) (items_if b (item "API_SERVER_CORS_ORIGINS" ∷ []))
  unfolding puts_key
  cors_there b on h =
      items_if-AllThere (put_env ha m) b _
        λ e. (there "API_SERVER_CORS_ORIGINS" (rw on (rw (h e) refl)), tt)

  searxng_there :
      searxng_enabled ha.spec.searxng ≡ true → AllThere (put_env ha m) (item "SEARXNG_URL" ∷ [])
  unfolding puts_key
  searxng_there on = (there "SEARXNG_URL" (rw on refl), tt)

  camofox_there :
      camofox_enabled ha.spec.camofox ≡ true → AllThere (put_env ha m) (item "CAMOFOX_URL" ∷ [])
  unfolding puts_key
  camofox_there on = (there "CAMOFOX_URL" (rw on refl), tt)

  api_there :
      (rest : List KeyToPath)
      → api_server_enabled api ≡ true
      → AllThere (put_env ha m) rest
      → AllThere
          (put_env ha m)
          (item "API_SERVER_ENABLED" ∷ item "API_SERVER_HOST" ∷ item "API_SERVER_PORT" ∷ rest)
  unfolding puts_key
  api_there rest on h = (
    there "API_SERVER_ENABLED" (rw on refl),
    (there "API_SERVER_HOST" (rw on refl), (there "API_SERVER_PORT" (rw on refl), h)),
  )

  webhook_there :
      webhook_enabled hook ≡ true
      → AllThere (put_env ha m) (item "WEBHOOK_ENABLED" ∷ item "WEBHOOK_PORT" ∷ [])
  unfolding puts_key
  webhook_there on = (there "WEBHOOK_ENABLED" (rw on refl), (there "WEBHOOK_PORT" (rw on refl), tt))

  sidecars_there : AllThere (put_env ha m) (build_profile_sidecar_dot_env_items ha)
  unfolding build_profile_sidecar_dot_env_items
  sidecars_there =
      All-append _ (items_if (searxng_enabled ha.spec.searxng) (item "SEARXNG_URL" ∷ [])) _
        (items_if-AllThere (put_env ha m) _ _ searxng_there)
        (items_if-AllThere (put_env ha m) _ _ camofox_there)

  operator_there : AllThere (put_env ha m) (build_operator_dot_env_items ha)
  unfolding build_operator_dot_env_items
  operator_there =
      All-append _ (items_if (api_server_enabled api) _) _
        (items_if-AllThere (put_env ha m) _ _
          λ on. api_there _ on (cors_there (any_items (get_cors_origins api)) on (any_origins _)))
        (All-append _ (items_if (webhook_enabled hook) _) _
          (items_if-AllThere (put_env ha m) _ _ webhook_there)
          (All-append _ (items_if (searxng_enabled ha.spec.searxng) _) _
            (items_if-AllThere (put_env ha m) _ _ searxng_there)
            (items_if-AllThere (put_env ha m) _ _ camofox_there)))

module _ {W : Type 0} (p : Platform W) (ha : HermesAgent) where
  secret_there :
      (existing : Option Secret) (s : State W) {built : Secret}
      → (build_hermes_secret p ha existing s).0 ≡ next built
      → AllThere built.contents (build_operator_dot_env_secret_items ha)
  unfolding build_operator_dot_env_secret_items
  secret_there existing s {built} made =
      let keeps = build_hermes_secret-keeps p ha existing s made in
      All-append _ (items_if (api_on p ha) (item api_server_key ∷ [])) _
        (items_if-AllThere built.contents (api_on p ha) (item api_server_key ∷ [])
          λ on. (keeps.0.2 on, tt))
        (items_if-AllThere built.contents (webhook_on p ha) (item webhook_secret ∷ [])
          λ on. (keeps.1.2 on, tt))

  -- With contents of the bootstrap ConfigMap built from any resolved documents, and the agent's Secret
  -- built from any that is there: each key of the ConfigMap that the pod mounts for the .env of the
  -- default profile or of a named profile is in those contents, and each key of the Secret that it mounts
  -- for the .env of the default profile is in that Secret.
  pub dot_env_items-AllThere :
      (refs : ResolvedConfigDocuments) (m : StringMap String) (existing : Option Secret)
      (s : State W) (built : Secret)
      → build_hermes_config_map_data p ha refs ≡ ok m
      → (build_hermes_secret p ha existing s).0 ≡ next built
      → AllThere m (build_operator_dot_env_items ha)
        × AllThere m (build_profile_sidecar_dot_env_items ha)
        × AllThere built.contents (build_operator_dot_env_secret_items ha)
  unfolding build_hermes_config_map_data
  dot_env_items-AllThere refs m existing s built data_made secret_made =
      let (document, e0, h0) = on_ok_ok (default_document p.as_float64 ha refs) _ data_made in
      let (m0, e1, h1) =
        on_ok_ok (put_document p ha "profile.default.config.yaml" document []) _ h0 in
      let files = put_workspace "default" (get_workspace ha.spec.hermes) m0 in
      let (m1, e2, h2) =
        on_ok_ok (put_profiles p ha refs (get_profiles ha.spec.hermes) files) _ h1 in
      let same : put_env ha m1 ≡ m = ok_injective h2 in
      (
        subst (λ o. AllThere o (build_operator_dot_env_items ha)) same (operator_there ha m1),
        subst (λ o. AllThere o (build_profile_sidecar_dot_env_items ha)) same
            (sidecars_there ha m1),
        secret_there existing s secret_made,
      )

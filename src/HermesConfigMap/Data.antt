-- ===== src/HermesConfigMap/Data.antt =====
-- What the bootstrap ConfigMap holds (validateConfigSources and buildHermesConfigMapData,
-- internal/usecase/hermesagent_hermes_configmap.go).
use Prim.Native.Char.{Char, code}
use hermes_agent_operator.Prelude.{
  decimal, join, String, ◌⧺◌, Bool, true, false, Option, none, some, List, [], ◌∷◌, ◌++◌, ◌&&◌,
  ◌==◌, is_empty, StringMap, lookup, insert, keys, is_some, get_or, and_then, if_some,
  if◌then◌else◌,
}
use hermes_agent_operator.Json.{Json, object, empty}
use hermes_agent_operator.Api.Hermes.{
  HermesConfigMapKeyRef, HermesProfile, HermesWorkspace, get_config, get_config_map_ref,
  get_workspace, get_profiles, get_api_server, get_webhook, api_server_enabled, api_server_port,
  webhook_enabled, webhook_port, get_cors_origins,
}
use hermes_agent_operator.Api.Agent.{HermesAgent, Camofox, searxng_enabled, camofox_enabled}
use hermes_agent_operator.Kube.Client.{Result, ok, err, on_ok, errorf, quoted, Platform}
use hermes_agent_operator.Workload.Inputs.{sort_strings}
use hermes_agent_operator.HermesConfigMap.Defaults.{
  apply_searxng_config_defaults, apply_multiplex_profiles_default, apply_camofox_config_defaults,
}

abbrev pub profile_raw : HermesProfile → Option Json
profile_raw p = and_then p.config (λ c. c.raw)

abbrev pub profile_ref : HermesProfile → Option HermesConfigMapKeyRef
profile_ref p = and_then p.config (λ c. c.config_map_ref)

-- `GetSortedProfileNames`.
abbrev pub sorted_profile_names : HermesAgent → List String
sorted_profile_names ha = sort_strings (keys (get_profiles ha.spec.hermes))

abbrev no_profile : HermesProfile
no_profile = record {
  clone = false;
  distribution = none;
  config = none;
  workspace = none;
  plugins = [];
  skills = [];
  crons = [];
  bundles = [];
}

-- `profiles[name]`, the zero profile where there is none.
abbrev pub profile_of : HermesAgent → String → HermesProfile
profile_of ha name = get_or (lookup (get_profiles ha.spec.hermes) name) no_profile

abbrev both_set : Option Json → Option HermesConfigMapKeyRef → String → List String
both_set raw ref what = if is_some ref && is_some raw then what ∷ [] else []

abbrev pub profiles_with_both : HermesAgent → List String → List String
profiles_with_both ha [] = []
profiles_with_both ha (name ∷ names) =
    let p : HermesProfile = profile_of ha name in
    both_set (profile_raw p) (profile_ref p) ("profile " ⧺ quoted name ⧺ " config")
    ++ profiles_with_both ha names

abbrev pub exclusive : List String → Result (Unit {0})
exclusive [] = ok tt
exclusive (x ∷ xs) = err (
    errorf
      ("raw and configMapRef are mutually exclusive, and both are set in " ⧺ join ", " (x ∷ xs)))

unfoldable pub validate_config_sources : HermesAgent → Result (Unit {0})
validate_config_sources ha = exclusive (
    both_set (get_config ha.spec.hermes) (get_config_map_ref ha.spec.hermes) "hermes.config"
    ++ profiles_with_both ha (sorted_profile_names ha))

pub record ResolvedConfigDocuments : Type 0 where
  pub default : Option Json
  pub profiles : StringMap Json

abbrev pub dash : Char
dash = "-"

-- `strings.ReplaceAll(path, "/", "--")`.
abbrev pub flattened : String → String
flattened String.[] = ""
flattened (String.◌∷◌ c s) =
    let rest = flattened s in
    if code c == b'/' then String.◌∷◌ dash (String.◌∷◌ dash rest) else String.◌∷◌ c rest

-- The loop over the files of a workspace.
abbrev pub put_files : String → StringMap String → StringMap String → StringMap String
put_files profile [] m = m
put_files profile ((path, content) ∷ files) m =
    put_files profile files
      (insert m ("profile." ⧺ (profile ⧺ (".workspace." ⧺ flattened path))) content)

abbrev pub put_workspace : String → Option HermesWorkspace → StringMap String → StringMap String
put_workspace profile w m = if_some w (λ x. put_files profile x.files m) m

-- `if condition { raw, err = apply(raw) }`.
abbrev pub apply_if : Bool → (Json → Result Json) → Json → Result Json
apply_if b f raw = if b then f raw else ok raw

-- Camofox keeps a volume of its own.
abbrev pub managed_persistence : Option Camofox → Bool
managed_persistence none = false
managed_persistence (some c) =
    c.enabled && c.persistence.enabled && is_empty (get_or c.persistence.existing_claim "")

abbrev pub with_sidecar_defaults : (String → String) → HermesAgent → Json → Result Json
with_sidecar_defaults float ha raw =
    on_ok (apply_if (searxng_enabled ha.spec.searxng) (apply_searxng_config_defaults float) raw)
      λ raw'.
        apply_if (managed_persistence ha.spec.camofox) (apply_camofox_config_defaults float) raw'

-- A default for the profiles needs a document, be it an empty one.
abbrev pub with_profiles_default :
    (String → String) → StringMap HermesProfile → Option Json → Result (Option Json)
with_profiles_default float [] raw = ok raw
with_profiles_default float (p ∷ ps) raw =
    on_ok (apply_multiplex_profiles_default float (get_or raw (object empty)))
      λ raw'. ok (some raw')

abbrev pub or_else : Option Json → Option Json → Option Json
or_else none b = b
or_else (some a) b = some a

-- The default profile's document.
unfoldable pub default_document :
    (String → String) → HermesAgent → ResolvedConfigDocuments → Result (Option Json)
default_document float ha refs =
    on_ok
      (if_some (or_else refs.default (get_config ha.spec.hermes))
        (λ raw. on_ok (with_sidecar_defaults float ha raw) λ raw'. ok (some raw')) (ok none))
      λ raw. with_profiles_default float (get_profiles ha.spec.hermes) raw

abbrev pub put_if : Bool → String → String → StringMap String → StringMap String
put_if b k v m = if b then insert m k v else m

abbrev pub some_origins : List String → Bool
some_origins [] = false
some_origins (x ∷ xs) = true

abbrev pub put_env : HermesAgent → StringMap String → StringMap String
put_env ha m =
    let api = get_api_server ha.spec.hermes in
    let hook = get_webhook ha.spec.hermes in
    let api_on = api_server_enabled api in
    let origins = get_cors_origins api in
    let m1 = put_if api_on "API_SERVER_ENABLED" "true" m in
    let m2 = put_if api_on "API_SERVER_HOST" "0.0.0.0" m1 in
    let m3 = put_if api_on "API_SERVER_PORT" (decimal (api_server_port api)) m2 in
    let m4 =
      put_if (api_on && some_origins origins) "API_SERVER_CORS_ORIGINS" (join "," origins) m3 in
    let m5 = put_if (webhook_enabled hook) "WEBHOOK_ENABLED" "true" m4 in
    let m6 = put_if (webhook_enabled hook) "WEBHOOK_PORT" (decimal (webhook_port hook)) m5 in
    let m7 = put_if (searxng_enabled ha.spec.searxng) "SEARXNG_URL" "http://localhost:8080" m6 in
    put_if (camofox_enabled ha.spec.camofox) "CAMOFOX_URL" "http://localhost:9377" m7

module _ {W : Type 0} (p : Platform W) (ha : HermesAgent) where
  -- A document that is there goes under its key, as YAML.
  abbrev pub put_document : String → Option Json → StringMap String → Result (StringMap String)
  put_document k none m = ok m
  put_document k (some document) m = on_ok (p.json_to_yaml document) λ yaml. ok (insert m k yaml)

  -- The loop over the profiles.
  unfoldable pub put_profiles :
      ResolvedConfigDocuments
      → StringMap HermesProfile
      → StringMap String
      → Result (StringMap String)
  put_profiles refs [] m = ok m
  put_profiles refs ((name, profile) ∷ profiles) m =
      on_ok
        (put_document ("profile." ⧺ (name ⧺ ".config.yaml"))
          (or_else (lookup refs.profiles name) (profile_raw profile)) m)
        λ m'. put_profiles refs profiles (put_workspace name profile.workspace m')

  unfoldable pub build_hermes_config_map_data : ResolvedConfigDocuments → Result (StringMap String)
  build_hermes_config_map_data refs = on_ok (default_document p.as_float64 ha refs) λ document.
      on_ok (put_document "profile.default.config.yaml" document []) λ m.
        on_ok
          (put_profiles refs (get_profiles ha.spec.hermes)
            (put_workspace "default" (get_workspace ha.spec.hermes) m))
          λ m'. ok (put_env ha m')

-- ===== src/Pod/Mounts/Covers.antt =====
-- The mounts that a list of volumes covers, and the volumes for the .env files
-- (internal/usecase/hermesagent_statefulset_hermes.go).
use hermes_agent_operator.Prelude.{
  ℕ, ◌+◌, String, ◌⧺◌, true, Option, none, some, List, [], ◌∷◌, ◌++◌, ◌≡◌, refl, is_some, str_eq,
  decimal, All, All-append, All-imp, arith, eq_iff,
}
use hermes_agent_operator.PodTemplate.{KeyToPath, Volume, VolumeMount, VolumeSource}
use hermes_agent_operator.Api.Hermes.{HermesDotEnv, HermesGitCredentials}
use hermes_agent_operator.Api.Agent.{HermesAgent}
use hermes_agent_operator.Pod.DotEnv.{
  Mounted, joined, mounted, mount_each, mount_one, mount_items, user_mounts, config_map_source,
  secret_source, default_mounts, profile_mounts, operator_mounts, credentials_mounts,
  own_config_source, own_secret_source, build_operator_dot_env_items,
  build_operator_dot_env_secret_items, build_profile_sidecar_dot_env_items,
}
use hermes_agent_operator.Pod.Home.{find_volume}

-- Each mount names one of the volumes.
abbrev pub Covers : List Volume → List VolumeMount → Type 0
Covers vs ms = All (λ m. is_some (find_volume m.name vs) ≡ true) ms

-- The second list has the names of the first.
abbrev pub Within : List Volume → List Volume → Type 0
Within xs ys =
    (name : String) → is_some (find_volume name xs) ≡ true → is_some (find_volume name ys) ≡ true

pub Within-left : (xs ys : List Volume) → Within xs (xs ++ ys)
Within-left [] ys name h = cc
Within-left (x ∷ xs) ys name h = ground (arith, Within-left xs ys name)

pub Within-right : (xs ys : List Volume) → Within ys (xs ++ ys)
Within-right [] ys name h = h
Within-right (x ∷ xs) ys name h = ground (arith, Within-right xs ys name)

pub Covers-Within :
    (xs ys : List Volume) (ms : List VolumeMount) → Within xs ys → Covers xs ms → Covers ys ms
Covers-Within xs ys ms w = All-imp _ _ ms λ m. w m.name

-- The mounts are of the volumes beside them.
abbrev pub IsCovered : Mounted → Type 0
IsCovered m = Covers m.volumes m.mounts

joined-IsCovered : (a b : Mounted) → IsCovered a → IsCovered b → IsCovered (joined a b)
joined-IsCovered a b h k =
    All-append _ a.mounts b.mounts
      (Covers-Within a.volumes (a.volumes ++ b.volumes) a.mounts (Within-left a.volumes b.volumes)
        h)
      (Covers-Within b.volumes (a.volumes ++ b.volumes) b.mounts (Within-right a.volumes b.volumes)
        k)

same_text : (name : String) → str_eq name name ≡ true
same_text name = (eq_iff name name).1 refl

mounted-IsCovered : (name : String) (source : VolumeSource) → IsCovered (mounted name source)
mounted-IsCovered name source = (rw (same_text name) refl, tt)

mount_each-IsCovered :
    (source : String → VolumeSource) (prefix : String) (i : ℕ) (refs : List String)
    → IsCovered (mount_each source prefix i refs)
mount_each-IsCovered source prefix i [] = tt
mount_each-IsCovered source prefix i (ref ∷ refs) =
    joined-IsCovered (mounted (prefix ⧺ ("-" ⧺ decimal i)) (source ref))
      (mount_each source prefix (i + 1) refs) (mounted-IsCovered _ (source ref))
      (mount_each-IsCovered source prefix (i + 1) refs)

mount_one-IsCovered :
    (source : String → VolumeSource) (name : String) (ref : Option String)
    → IsCovered (mount_one source name ref)
mount_one-IsCovered source name none = tt
mount_one-IsCovered source name (some r) = mounted-IsCovered name (source r)

mount_items-IsCovered :
    (source : List KeyToPath → VolumeSource) (name : String) (items : List KeyToPath)
    → IsCovered (mount_items source name items)
mount_items-IsCovered source name [] = tt
mount_items-IsCovered source name (i ∷ is) = mounted-IsCovered name (source (i ∷ is))

user_mounts-IsCovered :
    (suffix : String) (de : Option HermesDotEnv) → IsCovered (user_mounts suffix de)
user_mounts-IsCovered suffix none = tt
user_mounts-IsCovered suffix (some de) =
    let maps = "hermes-dotenv-configmap" ⧺ suffix in
    let secrets = "hermes-dotenv-secret" ⧺ suffix in
    let one_secret = mount_one secret_source secrets de.secret_ref in
    let each_secret = mount_each secret_source secrets 0 de.secret_refs in
    let each_map = mount_each config_map_source maps 0 de.config_map_refs in
    joined-IsCovered (mount_one config_map_source maps de.config_map_ref)
      (joined each_map (joined one_secret each_secret))
      (mount_one-IsCovered config_map_source maps de.config_map_ref)
      (joined-IsCovered each_map (joined one_secret each_secret)
        (mount_each-IsCovered config_map_source maps 0 de.config_map_refs)
        (joined-IsCovered one_secret each_secret
          (mount_one-IsCovered secret_source secrets de.secret_ref)
          (mount_each-IsCovered secret_source secrets 0 de.secret_refs)))

pub default_mounts-IsCovered :
    (ha : HermesAgent) (de : Option HermesDotEnv) → IsCovered (default_mounts ha de)
default_mounts-IsCovered ha de =
    let maps : String = "hermes-operator-dotenv-configmap" in
    let secrets : String = "hermes-operator-dotenv-secret" in
    let items = build_operator_dot_env_items ha in
    let secret_items = build_operator_dot_env_secret_items ha in
    joined-IsCovered (operator_mounts ha) (user_mounts "" de)
      (joined-IsCovered (mount_items (own_config_source ha) maps items)
        (mount_items (own_secret_source ha) secrets secret_items)
        (mount_items-IsCovered (own_config_source ha) maps items)
        (mount_items-IsCovered (own_secret_source ha) secrets secret_items))
      (user_mounts-IsCovered "" de)

pub profile_mounts-IsCovered :
    (ha : HermesAgent) (name : String) (de : Option HermesDotEnv)
    → IsCovered (profile_mounts ha name de)
profile_mounts-IsCovered ha name de =
    let own = "hermes-operator-dotenv-profile-" ⧺ name in
    let items = build_profile_sidecar_dot_env_items ha in
    joined-IsCovered (mount_items (own_config_source ha) own items)
      (user_mounts ("-profile-" ⧺ name) de) (mount_items-IsCovered (own_config_source ha) own items)
      (user_mounts-IsCovered ("-profile-" ⧺ name) de)

pub credentials_mounts-IsCovered :
    (name : String) (c : Option HermesGitCredentials) → IsCovered (credentials_mounts name c)
credentials_mounts-IsCovered name none = tt
credentials_mounts-IsCovered name (some c) =
    mounted-IsCovered ("hermes-git-credentials-" ⧺ name) (secret_source c.secret_ref)

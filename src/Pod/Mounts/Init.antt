-- ===== src/Pod/Mounts/Init.antt =====
-- The mounts of the init containers (internal/usecase/hermesagent_statefulset_hermes.go).
use hermes_agent_operator.Prelude.{
  String, Bool, true, false, List, [], ◌∷◌, ◌++◌, refl, All, All-append, if◌then◌else◌,
}
use hermes_agent_operator.PodTemplate.{Volume, VolumeMount}
use hermes_agent_operator.Api.Hermes.{HermesProfile}
use hermes_agent_operator.Api.Agent.{HermesAgent, get_egress_secret_name}
use hermes_agent_operator.Api.Egress.{egress_enabled}
use hermes_agent_operator.Api.Accessors.{get_dot_env}
use hermes_agent_operator.HermesConfigMap.Data.{profile_of}
use hermes_agent_operator.Pod.Parts.{volume, read_only_mount}
use hermes_agent_operator.Pod.DotEnv.{default_mounts, profile_mounts, secret_source}
use hermes_agent_operator.Pod.Steps.{default_dot_env, writes_dot_env, writes_profile_dot_env}
use hermes_agent_operator.Pod.Hermes.{
  egress_tokens_volumes, egress_tokens_mounts, default_env_volumes, default_env_mounts,
  profile_volumes, profile_volume_mounts, all_profile_volumes, profile_credentials,
}
use hermes_agent_operator.Pod.Mounts.Covers.{
  Covers, Within, Within-left, Within-right, Covers-Within, default_mounts-IsCovered,
  profile_mounts-IsCovered, credentials_mounts-IsCovered,
}

pub tokens-Covers : (ha : HermesAgent) → Covers (egress_tokens_volumes ha) (egress_tokens_mounts ha)
tokens-Covers ha =
    elim (egress_enabled ha.spec.egress)
      as (λ b.
        Covers
          (if b
            then volume "hermes-egress-tokens" (secret_source (get_egress_secret_name ha)) ∷ []
            else [])
          (if b then read_only_mount "hermes-egress-tokens" "/hermes-egress-tokens" ∷ [] else [])) [
            | true ↦ (refl, tt)
            | false ↦ tt
          ]

-- Among some volumes that have those of the tokens.
module _ (ha : HermesAgent) (all : List Volume)
    (tokens : Covers all (egress_tokens_mounts ha)) where
  written-Covers :
      (b : Bool) (vs : List Volume) (ms : List VolumeMount)
      → Covers vs ms
      → Within (if b then vs else []) all
      → Covers all (if b then ms ++ egress_tokens_mounts ha else [])
  written-Covers true vs ms h w =
      All-append _ ms (egress_tokens_mounts ha) (Covers-Within vs all ms w h) tokens
  written-Covers false vs ms h w = tt

  pub default_env-Covers : Within (default_env_volumes ha) all → Covers all (default_env_mounts ha)
  default_env-Covers =
      let m = default_mounts ha (default_dot_env ha) in
      written-Covers (writes_dot_env ha) m.volumes m.mounts
        (default_mounts-IsCovered ha (default_dot_env ha))

  profile-Covers :
      (name : String) (profile : HermesProfile)
      → Within (profile_volumes ha name profile) all
      → Covers all (profile_volume_mounts ha name profile)
  profile-Covers name profile w =
      let env = profile_mounts ha name (get_dot_env profile.workspace) in
      let c = profile_credentials name profile in
      let vs = if writes_profile_dot_env ha profile then env.volumes else [] in
      All-append _ c.mounts _
        (Covers-Within c.volumes all c.mounts (λ n h. w n (Within-left c.volumes vs n h))
          (credentials_mounts-IsCovered name _))
        (written-Covers (writes_profile_dot_env ha profile) env.volumes env.mounts
          (profile_mounts-IsCovered ha name (get_dot_env profile.workspace))
          (λ n h. w n (Within-right c.volumes vs n h)))

  pub profiles-Covers :
      (names : List String)
      → Within (all_profile_volumes ha names) all
      → All (λ name. Covers all (profile_volume_mounts ha name (profile_of ha name))) names
  profiles-Covers [] w = tt
  profiles-Covers (name ∷ names) w =
      let own = profile_volumes ha name (profile_of ha name) in
      let rest = all_profile_volumes ha names in
      (
        profile-Covers name (profile_of ha name) (λ n h. w n (Within-left own rest n h)),
        profiles-Covers names (λ n h. w n (Within-right own rest n h)),
      )

-- ===== src/Pod/Steps.antt =====
-- The steps of the init containers, in order (internal/usecase/hermesagent_statefulset_hermes.go).
use hermes_agent_operator.Prelude.{
  String, ◌⧺◌, Bool, Option, List, [], ◌∷◌, ◌++◌, ◌||◌, is_some, if_some, if◌then◌else◌,
}
use hermes_agent_operator.Api.Hermes.{
  HermesDotEnv, HermesProfile, HermesProfileDistribution, get_profiles, get_workspace,
}
use hermes_agent_operator.Api.Agent.{HermesAgent}
use hermes_agent_operator.Api.Egress.{egress_enabled}
use hermes_agent_operator.Api.Accessors.{
  get_dot_env, has_config_document, profile_has_document, get_pip, get_npm, get_plugins, get_skills,
  get_bundles, get_crons, credentials_key,
}
use hermes_agent_operator.Pod.DotEnv.{
  any_items, build_operator_dot_env_items, build_operator_dot_env_secret_items,
  build_profile_sidecar_dot_env_items, default_mounts, profile_mounts,
}
use hermes_agent_operator.Scripts.Files.{
  build_egress_dot_env_strip_script, build_config_script, build_workspace_script,
  build_dot_env_script,
}
use hermes_agent_operator.Scripts.Packages.{build_python_packages_script, build_npm_packages_script}
use hermes_agent_operator.Scripts.Tools.{
  build_plugins_script, build_skills_script, build_bundles_script,
}
use hermes_agent_operator.Scripts.Profiles.{
  build_profiles_cleanup_script, build_profile_creation_script, build_profile_distribution_script,
}
use hermes_agent_operator.Scripts.Crons.{build_crons_script, build_resume_crons_script}

abbrev pub default_profile : String
default_profile = "default"

abbrev pub step_if : Bool → String → List String
step_if b step = if b then step ∷ [] else []

-- Where the tokens are mounted, "" without egress.
abbrev pub egress_tokens_dir : HermesAgent → String
egress_tokens_dir ha = if egress_enabled ha.spec.egress then "/hermes-egress-tokens" else ""

abbrev pub default_dot_env : HermesAgent → Option HermesDotEnv
default_dot_env ha = get_dot_env (get_workspace ha.spec.hermes)

-- Whether the default profile's .env is written.
abbrev pub writes_dot_env : HermesAgent → Bool
writes_dot_env ha =
    is_some (default_dot_env ha)
    || (any_items (build_operator_dot_env_items ha)
        || (any_items (build_operator_dot_env_secret_items ha) || egress_enabled ha.spec.egress))

-- Whether that of a named profile is.
abbrev pub writes_profile_dot_env : HermesAgent → HermesProfile → Bool
writes_profile_dot_env ha profile =
    is_some (get_dot_env profile.workspace)
    || (any_items (build_profile_sidecar_dot_env_items ha) || egress_enabled ha.spec.egress)

module _ (q : String → String) where
  unfoldable pub default_steps : HermesAgent → List String
  default_steps ha =
      let hermes = ha.spec.hermes in
      step_if (egress_enabled ha.spec.egress) build_egress_dot_env_strip_script
      ++ (step_if (has_config_document hermes) (build_config_script q default_profile)
          ++ ((build_workspace_script q default_profile ∷ [])
              ++ (step_if (writes_dot_env ha) (
                    build_dot_env_script q default_profile (egress_tokens_dir ha)
                      (default_mounts ha (default_dot_env ha)).paths)
                  ++ (build_python_packages_script q (get_pip hermes)
                      ∷ build_npm_packages_script q (get_npm hermes)
                      ∷ build_plugins_script q default_profile (get_plugins hermes)
                      ∷ build_skills_script q default_profile (get_skills hermes)
                      ∷ build_bundles_script q default_profile (get_bundles hermes)
                      ∷ build_crons_script q default_profile (get_crons hermes)
                      ∷ step_if (any_items (get_profiles hermes))
                          (build_profiles_cleanup_script (get_profiles hermes))))))

  abbrev pub credentials_file : String → HermesProfileDistribution → String
  credentials_file name dist =
      if_some dist.git_credentials
        (λ c. "/hermes-git-credentials-" ⧺ (name ⧺ ("/" ⧺ credentials_key c))) ""

  -- The step that creates the profile.
  abbrev pub creation_step : String → HermesProfile → String
  creation_step name profile =
      if_some profile.distribution
        (λ dist. build_profile_distribution_script q name dist (credentials_file name dist))
        (build_profile_creation_script q name profile.clone)

  abbrev pub resume_steps : String → HermesProfile → List String
  resume_steps name profile =
      if_some profile.distribution
        (λ dist. build_resume_crons_script q name dist.resume_crons profile.crons ∷ []) []

  unfoldable pub profile_steps : HermesAgent → String → HermesProfile → List String
  profile_steps ha name profile =
      (creation_step name profile ∷ [])
      ++ (step_if (profile_has_document profile) (build_config_script q name)
          ++ ((build_workspace_script q name ∷ [])
              ++ (step_if (writes_profile_dot_env ha profile) (
                    build_dot_env_script q name (egress_tokens_dir ha)
                      (profile_mounts ha name (get_dot_env profile.workspace)).paths)
                  ++ (build_plugins_script q name profile.plugins
                      ∷ build_skills_script q name profile.skills
                      ∷ build_bundles_script q name profile.bundles
                      ∷ build_crons_script q name profile.crons
                      ∷ resume_steps name profile))))

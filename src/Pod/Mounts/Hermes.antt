-- ===== src/Pod/Mounts/Hermes.antt =====
-- The mounts of the first builder's containers (internal/usecase/hermesagent_statefulset_hermes.go).
use hermes_agent_operator.Prelude.{
  String, true, false, List, [], ◌∷◌, ◌++◌, map, ◌≡◌, refl, is_some, Bool-cases, inl, inr, All,
  All-append, All-imp, arith, if◌then◌else◌,
}
use hermes_agent_operator.PodTemplate.{Volume, VolumeMount}
use hermes_agent_operator.Objects.{StatefulSet}
use hermes_agent_operator.Api.Hermes.{get_persistence}
use hermes_agent_operator.Api.Agent.{HermesAgent}
use hermes_agent_operator.Api.Egress.{egress_enabled}
use hermes_agent_operator.Api.Accessors.{get_init_scripts, should_init_chown_data}
use hermes_agent_operator.HermesConfigMap.Data.{sorted_profile_names, profile_of}
use hermes_agent_operator.Workload.Inputs.{StatefulSetInputs}
use hermes_agent_operator.Pod.{build_stateful_set, bare_stateful_set}
use hermes_agent_operator.Pod.Parts.{hermes_home_volume, mount}
use hermes_agent_operator.Pod.Storage.{home_storage}
use hermes_agent_operator.Pod.Hermes.{
  hermes_volumes, fixed_volumes, egress_tokens_volumes, egress_tokens_mounts, default_env_volumes,
  all_profile_volumes, chown_container, chown_containers, egress_init_container, default_container,
  profile_container, script_container, egress_containers, hermes_init_containers,
  build_hermes_container, init_mounts, default_env_mounts, profile_volume_mounts,
}
use hermes_agent_operator.Pod.Extends.{build_stateful_set-Extends}
use hermes_agent_operator.Pod.Home.{find_volume, has_own_claim, built_template, find-home}
use hermes_agent_operator.Pod.Mounts.Covers.{
  Covers, Within, Within-left, Within-right, Covers-Within,
}
use hermes_agent_operator.Pod.Mounts.Init.{tokens-Covers, default_env-Covers, profiles-Covers}
use hermes_agent_operator.Pod.Mounts.Stages.{
  has_volume, AreThere, IsMounted, AllMounted, Extends-AreThere,
}

All-map :
    {A B : Type 0} (P : B → Type 0) (f : A → B) (xs : List A)
    → All (λ x. P (f x)) xs
    → All P (map f xs)
All-map P f [] h = tt
All-map P f (x ∷ xs) h = (h.0, All-map P f xs h.1)

All-each : {A : Type 0} (P : A → Type 0) (xs : List A) → ((x : A) → P x) → All P xs
All-each P [] h = tt
All-each P (x ∷ xs) h = (h x, All-each P xs h)

module _ (q : String → String) (ha : HermesAgent) (inputs : StatefulSetInputs) where
  abbrev whole : StatefulSet
  whole = build_stateful_set q ha inputs

  home_there : has_volume whole hermes_home_volume ≡ true
  home_there = elim (Bool-cases (has_own_claim (get_persistence ha.spec.hermes))) [
    | inl own ↦ let t = built_template q ha inputs in ground arith
    | inr none_own ↦ rw (find-home q ha inputs none_own) refl
  ]

  -- The volumes of the first builder are there.
  first_there : (ms : List VolumeMount) → Covers (hermes_volumes ha) ms → AreThere whole ms
  unfolding build_hermes_container
  first_there ms =
      Extends-AreThere (build_hermes_container q ha (bare_stateful_set ha inputs)) whole ms
        (build_stateful_set-Extends q ha inputs)

  -- Behind the fixed volumes and the home: the tokens, the default profile's and the profiles'.
  abbrev behind : List Volume
  behind =
      egress_tokens_volumes ha
      ++ (default_env_volumes ha ++ all_profile_volumes ha (sorted_profile_names ha))

  behind_there : Within behind (hermes_volumes ha)
  unfolding hermes_volumes
  behind_there name h =
      Within-right (fixed_volumes ha) _ name
        (Within-right (home_storage (get_persistence ha.spec.hermes)).0 behind name h)

  fixed_there :
      (name : String)
      → is_some (find_volume name (fixed_volumes ha)) ≡ true
      → has_volume whole name ≡ true
  unfolding hermes_volumes
  fixed_there name h =
      let found : Covers (hermes_volumes ha) (mount name "" ∷ []) =
        (Within-left (fixed_volumes ha) _ name h, tt) in
      (first_there (mount name "" ∷ []) found).0

  init_there : AreThere whole init_mounts
  init_there = (home_there, (fixed_there "bootstrap" refl, (fixed_there "tmp" refl, tt)))

  tokens_there : Covers (hermes_volumes ha) (egress_tokens_mounts ha)
  tokens_there =
      Covers-Within (egress_tokens_volumes ha) (hermes_volumes ha) (egress_tokens_mounts ha)
        (λ n h. behind_there n (Within-left (egress_tokens_volumes ha) _ n h)) (tokens-Covers ha)

  default_there : AreThere whole (init_mounts ++ default_env_mounts ha)
  default_there = All-append _ init_mounts (default_env_mounts ha) init_there (
      first_there (default_env_mounts ha) (
        default_env-Covers ha (hermes_volumes ha) tokens_there λ n h. behind_there n (
          Within-right (egress_tokens_volumes ha) _ n
            (Within-left (default_env_volumes ha) _ n h))))

  profiles_there :
      All
        (λ name. AreThere whole (init_mounts ++ profile_volume_mounts ha name (profile_of ha name)))
        (sorted_profile_names ha)
  profiles_there =
      All-imp _ _ (sorted_profile_names ha)
        (λ name h. All-append _ init_mounts _ init_there (first_there _ h))
        (profiles-Covers ha (hermes_volumes ha) tokens_there (sorted_profile_names ha) λ n h.
          behind_there n (
            Within-right (egress_tokens_volumes ha) _ n
              (Within-right (default_env_volumes ha) _ n h)))

  chown_there : All (IsMounted whole) (chown_containers ha)
  chown_there =
      elim (should_init_chown_data ha.spec.hermes)
        as (λ b. All (IsMounted whole) (if b then chown_container ha ∷ [] else [])) [
          | true ↦ ((home_there, tt), tt)
          | false ↦ tt
        ]

  egress_there : All (IsMounted whole) (egress_containers q ha)
  egress_there =
      elim (egress_enabled ha.spec.egress)
        as (λ b. All (IsMounted whole) (if b then egress_init_container q ha ∷ [] else [])) [
          | true ↦ (init_there, tt)
          | false ↦ tt
        ]

  init_containers_there : All (IsMounted whole) (hermes_init_containers q ha)
  unfolding hermes_init_containers
  init_containers_there = All-append _ (chown_containers ha) _ chown_there (
      All-append _ (default_container q ha ∷ map (profile_container q ha) (sorted_profile_names ha))
        _
        (
          default_there,
          All-map (IsMounted whole) (profile_container q ha) (sorted_profile_names ha)
              profiles_there,
        )
        (All-append _ (map (script_container ha) (get_init_scripts ha.spec.hermes)) _
          (All-map (IsMounted whole) (script_container ha) (get_init_scripts ha.spec.hermes) (
            All-each _ (get_init_scripts ha.spec.hermes)
              λ is. (home_there, (fixed_there "tmp" refl, tt))))
          egress_there))

  pub hermes-AllMounted :
      AreThere whole ha.spec.extra_volume_mounts
      → AllMounted whole (build_hermes_container q ha (bare_stateful_set ha inputs))
  unfolding build_hermes_container
  hermes-AllMounted extra = record {
    init = init_containers_there;
    main = ((fixed_there "dshm" refl, (home_there, (fixed_there "tmp" refl, extra))), tt);
  }

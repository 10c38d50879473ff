-- ===== src/Pod/Mounts/Stages.antt =====
-- The mounts of the containers of each builder (internal/usecase/hermesagent_statefulset.go).
use hermes_agent_operator.Prelude.{
  String, Bool, true, false, Option, none, some, List, [], ◌∷◌, ◌++◌, ◌≡◌, refl, is_some, ◌||◌,
  str_eq, All, All-append, All-imp, if◌then◌else◌,
}
use hermes_agent_operator.PodTemplate.{Container, Volume, VolumeMount}
use hermes_agent_operator.Objects.{StatefulSet}
use hermes_agent_operator.Api.Agent.{HermesAgent, SearxNg, Camofox}
use hermes_agent_operator.Api.Egress.{Egress}
use hermes_agent_operator.Restore.{stateful_set_has_volume_claim_template}
use hermes_agent_operator.Pod.Parts.{
  hermes_container_name, change_container, add_env, literal, read_only_mount, map_spec,
}
use hermes_agent_operator.Pod.Sidecars.{
  if_searxng, if_camofox, add_searxng, add_camofox, searxng_volumes, camofox_volumes,
  searxng_init_container, searxng_container, camofox_container,
}
use hermes_agent_operator.Pod.Egress.{
  if_egress, add_egress, with_egress_hash, with_tokens, egress_container, egress_config_volume,
  egress_agent_ca_volume,
}
use hermes_agent_operator.Pod.Extends.{Extends, volumes}
use hermes_agent_operator.Pod.Home.{find_volume}
use hermes_agent_operator.Pod.Mounts.Covers.{Covers, Within-left, Within-right, Covers-Within}

-- The name is that of a volume or a claim template.
abbrev pub has_volume : StatefulSet → String → Bool
has_volume sts name =
    is_some (find_volume name (volumes sts)) || stateful_set_has_volume_claim_template sts name

abbrev pub AreThere : StatefulSet → List VolumeMount → Type 0
AreThere sts ms = All (λ m. has_volume sts m.name ≡ true) ms

-- Each mount of the container is of a volume or of a claim template.
abbrev pub IsMounted : StatefulSet → Container → Type 0
IsMounted sts c = AreThere sts c.volume_mounts

-- The containers of the first mount only what the second has.
pub record AllMounted (whole : StatefulSet) (sts : StatefulSet) : Type 0 where
  pub init : All (IsMounted whole) sts.template.spec.init_containers
  pub main : All (IsMounted whole) sts.template.spec.containers

pub Extends-AreThere :
    (a b : StatefulSet) (ms : List VolumeMount)
    → Extends a b
    → Covers (volumes a) ms
    → AreThere b ms
Extends-AreThere a b ms x = All-imp _ _ ms λ m h.
    let here : is_some (find_volume m.name (volumes b)) ≡ true =
      rw x.adds (Within-left (volumes a) x.more m.name h) in
    rw here refl

-- One container is changed in place.
All-change :
    (P : Container → Type 0) (name : String) (f : Container → Container) (cs : List Container)
    → ((c : Container) → P c → P (f c))
    → All P cs
    → All P (change_container name f cs)
All-change P name f [] k h = tt
All-change P name f (c ∷ cs) k h =
    elim (str_eq c.name name)
      as (λ b. All P (if b then f c ∷ cs else c ∷ change_container name f cs)) [
        | true ↦ (k c h.0, h.1)
        | false ↦ (h.0, All-change P name f cs k h.1)
      ]

-- The containers of a builder mount the volumes that it adds.
added-AreThere :
    (sts now whole : StatefulSet) (vs : List Volume) (ms : List VolumeMount)
    → Extends now whole
    → volumes now ≡ volumes sts ++ vs
    → Covers vs ms
    → AreThere whole ms
added-AreThere sts now whole vs ms x e k =
    Extends-AreThere now whole ms x
      (rw e (Covers-Within vs (volumes sts ++ vs) ms (Within-right (volumes sts) vs) k))

module _ (whole : StatefulSet) (ha : HermesAgent) where
  -- One container is changed, and one is behind them.
  changed :
      (f : Container → Container) (cs : List Container) (c : Container)
      → ((d : Container) → IsMounted whole d → IsMounted whole (f d))
      → IsMounted whole c
      → All (IsMounted whole) cs
      → All (IsMounted whole) (change_container hermes_container_name f cs ++ (c ∷ []))
  changed f cs c k here h =
      All-append (IsMounted whole) (change_container hermes_container_name f cs) (c ∷ [])
        (All-change (IsMounted whole) hermes_container_name f cs k h) (here, tt)

  pub searxng-AllMounted :
      (sx : Option SearxNg) (sts : StatefulSet)
      → Extends (if_searxng ha sx sts) whole
      → AllMounted whole sts
      → AllMounted whole (if_searxng ha sx sts)
  searxng-AllMounted none sts x h = h
  searxng-AllMounted (some sx) sts x h =
      (elim sx.enabled
          as (λ b.
            Extends (if b then map_spec (add_searxng ha sx) sts else sts) whole
            → AllMounted whole (if b then map_spec (add_searxng ha sx) sts else sts)) [
              | true ↦ λ x'.
                  let now = map_spec (add_searxng ha sx) sts in
                  let vs = searxng_volumes ha sx in
                  record {
                    init =
                        All-append (IsMounted whole) sts.template.spec.init_containers
                          (searxng_init_container sx ∷ []) h.init
                          (
                            added-AreThere sts now whole vs
                                (searxng_init_container sx).volume_mounts x' refl
                                (refl, (refl, (refl, tt))),
                            tt,
                          );
                    main =
                        changed (add_env (literal "SEARXNG_URL" "http://localhost:8080" ∷ []))
                          sts.template.spec.containers (searxng_container ha sx) (λ c k. k)
                          (added-AreThere sts now whole vs (searxng_container ha sx).volume_mounts
                            x' refl (refl, (refl, tt)))
                          h.main;
                  }
              | false ↦ λ x'. h
            ])
        x

  pub camofox-AllMounted :
      (cx : Option Camofox) (sts : StatefulSet)
      → Extends (if_camofox ha cx sts) whole
      → AllMounted whole sts
      → AllMounted whole (if_camofox ha cx sts)
  camofox-AllMounted none sts x h = h
  camofox-AllMounted (some cx) sts x h =
      (elim cx.enabled
          as (λ b.
            Extends (if b then map_spec (add_camofox ha cx) sts else sts) whole
            → AllMounted whole (if b then map_spec (add_camofox ha cx) sts else sts)) [
              | true ↦ λ x'. record {
                init = h.init;
                main =
                    changed (add_env (literal "CAMOFOX_URL" "http://localhost:9377" ∷ []))
                      sts.template.spec.containers (camofox_container cx) (λ c k. k)
                      (added-AreThere sts (map_spec (add_camofox ha cx) sts) whole
                        (camofox_volumes ha cx) (camofox_container cx).volume_mounts x' refl
                        (refl, tt))
                      h.main;
              }
              | false ↦ λ x'. h
            ])
        x

  pub egress-AllMounted :
      (eg : Option Egress) (names : List String) (hash : String) (sts : StatefulSet)
      → Extends (if_egress ha eg names hash sts) whole
      → AllMounted whole sts
      → AllMounted whole (if_egress ha eg names hash sts)
  egress-AllMounted none names hash sts x h = h
  egress-AllMounted (some eg) names hash sts x h =
      (elim eg.enabled
          as (λ b.
            Extends
              (if b then map_spec (add_egress ha eg names) (with_egress_hash hash sts) else sts)
              whole
            → AllMounted whole (
                if b then map_spec (add_egress ha eg names) (with_egress_hash hash sts) else sts)) [
                  | true ↦ λ x'.
                      let now = map_spec (add_egress ha eg names) (with_egress_hash hash sts) in
                      let vs = egress_config_volume ha ∷ egress_agent_ca_volume ha ∷ [] in
                      let ca = read_only_mount "egress-agent-ca" "/etc/hermes-egress" ∷ [] in
                      record {
                        init = h.init;
                        main =
                            changed (with_tokens ha names) sts.template.spec.containers
                              (egress_container ha eg)
                              (λ c k.
                                All-append _ c.volume_mounts ca k
                                  (added-AreThere sts now whole vs ca x' refl (refl, tt)))
                              (added-AreThere sts now whole vs
                                (egress_container ha eg).volume_mounts x' refl (refl, tt))
                              h.main;
                      }
                  | false ↦ λ x'. h
                ])
        x

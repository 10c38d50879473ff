-- ===== src/Workload/Names.antt =====
-- The names of the volumeClaimTemplates (sameVolumeClaimTemplateNames,
-- internal/usecase/hermesagent_statefulset.go).
pub mod SameSet
use hermes_agent_operator.Prelude.{
  ℕ, suc, String, Bool, true, false, List, [], ◌∷◌, ◌&&◌, ◌==◌, length, contains,
}
use hermes_agent_operator.Objects.{claim_names, StatefulSet}

-- The loop over the desired names.
abbrev pub all_in : List String → List String → Bool
all_in live [] = true
all_in live (n ∷ ns) = contains live n && all_in live ns

abbrev pub same_names : List String → List String → Bool
same_names live desired = length live == length desired && all_in live desired

abbrev pub same_volume_claim_template_names : StatefulSet → StatefulSet → Bool
same_volume_claim_template_names live desired =
    same_names (claim_names live.volume_claim_templates)
      (claim_names desired.volume_claim_templates)

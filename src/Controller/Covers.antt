-- ===== src/Controller/Covers.antt =====
-- The watch of the ConfigMaps against what the reconciler reads.
use hermes_agent_operator.Prelude.{
  String, Bool, true, false, none, some, List, [], ◌∷◌, ◌++◌, ◌≡◌, ◌⊎◌, refl, ap, ◌∙◌, arith,
  eq_iff, str_eq, contains, StringMap, lookup, get_or, inl, inr, Bool-cases, Option-cases, subst,
}
use hermes_agent_operator.Objects.{NsName}
use hermes_agent_operator.Api.Hermes.{HermesProfile, HermesConfigMapKeyRef, get_profiles}
use hermes_agent_operator.Api.Agent.{HermesAgent}
use hermes_agent_operator.Kube.Client.{Result, ok, Platform}
use hermes_agent_operator.HermesConfigMap.{resolve_config_documents}
use hermes_agent_operator.HermesConfigMap.Data.{profile_ref}
use hermes_agent_operator.HermesConfigMap.Reads.{SameBut, Unread, resolve_config_documents-same}
use hermes_agent_operator.Controller.{
  profile_source_names, default_source_names, get_config_source_config_map_names, object_key,
  requests_for, agents_referencing_config_map,
}

-- The element is in the list.
abbrev pub Has : {A : Type 0} → A → List A → Type 0
Has a [] = ⊥
Has a (x ∷ xs) = (x ≡ a) ⊎ Has a xs

not_both : {b : Bool} → b ≡ false → b ≡ true → ⊥
not_both h k = cc

contains-append_right :
    (xs ys : List String) (a : String) → contains ys a ≡ true → contains (xs ++ ys) a ≡ true
contains-append_right [] ys a h = h
contains-append_right (x ∷ xs) ys a h = ground (arith, contains-append_right xs ys a h)

contains-append_left :
    (xs ys : List String) (a : String) → contains xs a ≡ true → contains (xs ++ ys) a ≡ true
contains-append_left [] ys a h = cc
contains-append_left (x ∷ xs) ys a h = elim (Bool-cases (str_eq x a)) [
  | inl e ↦ rw e refl
  | inr e ↦ rw e (contains-append_left xs ys a (rw e at h))
]

contains_here : (a : String) (xs : List String) → contains (a ∷ xs) a ≡ true
contains_here a xs = rw ((eq_iff a a).1 refl) refl

-- The profile that a name is read as is one of the list, or the one without anything.
read_profile :
    (ps : StringMap HermesProfile) (d : HermesProfile) (name : String) (ref : HermesConfigMapKeyRef)
    → profile_ref d ≡ none
    → profile_ref (get_or (lookup ps name) d) ≡ some ref
    → contains (profile_source_names ps) ref.name ≡ true
read_profile [] d name ref empty h = cc
read_profile ((k, profile) ∷ ps) d name ref empty h = elim (Bool-cases (str_eq k name)) [
  | inl e ↦
      let here : profile_ref profile ≡ some ref = rw e at h in
      rw here (contains_here ref.name (profile_source_names ps))
  | inr e ↦
      let rest = read_profile ps d name ref empty (rw e at h) in
      elim (Option-cases (profile_ref profile)) [
        | inl none_here ↦ rw none_here rest
        | inr (r, here) ↦
            rw here (contains-append_right (r.name ∷ []) (profile_source_names ps) ref.name rest)
      ]
]

requested :
    (sources : HermesAgent → List String) (name : String) (agents : List HermesAgent)
    (ha : HermesAgent)
    → Has ha agents
    → contains (sources ha) name ≡ true
    → Has (object_key ha) (requests_for sources name agents)
requested sources name [] ha h k = h
requested sources name (x ∷ agents) ha h k =
    let rest = requested sources name agents ha in
    elim h [
      | inl e ↦
          let here : contains (sources x) name ≡ true =
            ap (λ (a : HermesAgent). contains (sources a) name) e ∙ k in
          rw here (inl (ap object_key e))
      | inr g ↦ elim (Bool-cases (contains (sources x) name)) [
        | inl e ↦ rw e (inr (rest g k))
        | inr e ↦ rw e (rest g k)
      ]
    ]

not_a_source :
    (ha : HermesAgent) (name : String)
    → contains (get_config_source_config_map_names ha) name ≡ false
    → Unread ha name
unfolding get_config_source_config_map_names
not_a_source ha name absent = (
  λ ref h same. not_both absent (
      subst
        (λ (n : String).
          contains (default_source_names ha ++ profile_source_names (get_profiles ha.spec.hermes)) n
          ≡ true)
        same
        (contains-append_left (default_source_names ha) _ ref.name
          (rw h (contains_here ref.name [])))),
  λ profile ref h same. not_both absent (
      subst
        (λ (n : String).
          contains (default_source_names ha ++ profile_source_names (get_profiles ha.spec.hermes)) n
          ≡ true)
        same
        (contains-append_right (default_source_names ha) _ ref.name
          (read_profile (get_profiles ha.spec.hermes) _ profile ref refl h))),
)

-- An agent that is in the list of its namespace, and for which a change of a ConfigMap asks for no
-- reconciliation, resolves its configuration documents without that ConfigMap: from each state, on
-- clusters that answer alike to every read of a ConfigMap of another name, the same documents or the
-- same error result, with the same state.
pub agents_referencing_config_map-covers :
    {W : Type 0} (p q : Platform W) (list_agents : String → Result (List HermesAgent))
    (agents : List HermesAgent) (ha : HermesAgent) (obj : NsName)
    → list_agents obj.namespace ≡ ok agents
    → Has ha agents
    → (Has (object_key ha) (agents_referencing_config_map list_agents obj) → ⊥)
    → SameBut obj p q
    → resolve_config_documents p ha ≡ resolve_config_documents q ha
unfolding agents_referencing_config_map
agents_referencing_config_map-covers p q list_agents agents ha obj listed there unasked same =
    elim (Bool-cases (contains (get_config_source_config_map_names ha) obj.name)) [
      | inl e ↦ absurd (
          unasked
            (rw listed (requested get_config_source_config_map_names obj.name agents ha there e)))
      | inr e ↦ resolve_config_documents-same p q ha obj same (not_a_source ha obj.name e)
    ]

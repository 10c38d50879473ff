-- ===== src/HermesConfigMap/Reads.antt =====
-- What the reconciler reads for the configuration documents.
use hermes_agent_operator.Prelude.{
  String, Option, none, some, List, [], ◌∷◌, ◌≡◌, ◌≢◌, refl, ap, ◌∙◌, fun_ext, StringMap, insert,
  lookup, inl, inr, Option-cases,
}
use hermes_agent_operator.Objects.{NsName, ConfigMap}
use hermes_agent_operator.Json.{Json}
use hermes_agent_operator.Api.Hermes.{HermesConfigMapKeyRef, get_config_map_ref, get_key}
use hermes_agent_operator.Api.Agent.{HermesAgent}
use hermes_agent_operator.Kube.Client.{Result, ok, err, Platform, config_map}
use hermes_agent_operator.Kube.Exec.{State, Exec, Call, attempt, lift, pure, ◌>>=◌, ◌>>◌}
use hermes_agent_operator.Kube.Calls.{get, get_config_map}
use hermes_agent_operator.Workload.Inputs.{then_call}
use hermes_agent_operator.HermesConfigMap.{
  parsed_document, document_in, read_config_document, resolving, resolve_document, resolve_profiles,
  resolve_default, resolve_config_documents,
}
use hermes_agent_operator.HermesConfigMap.Data.{
  profile_ref, profile_of, sorted_profile_names, validate_config_sources,
}

-- Two platforms that differ at most in what they answer to a read of one ConfigMap.
abbrev pub SameBut : {W : Type 0} → NsName → Platform W → Platform W → Type 0
SameBut {W} obj p q =
    ((n : NsName)
      → n.name ≢ obj.name
      → (w : W) → p.client_get config_map n w ≡ q.client_get config_map n w)
    × ((text : String) → p.yaml_to_json text ≡ q.yaml_to_json text)

-- No document of the agent is read from a ConfigMap of the name.
abbrev pub Unread : HermesAgent → String → Type 0
Unread ha name =
    ((ref : HermesConfigMapKeyRef) → get_config_map_ref ha.spec.hermes ≡ some ref → ref.name ≢ name)
    × ((profile : String) (ref : HermesConfigMapKeyRef)
        → profile_ref (profile_of ha profile) ≡ some ref
        → ref.name ≢ name)

then_call_ext :
    {W A B : Type 0} (x : Result A × State W) (f g : A → Call W B)
    → ((a : A) (s : State W) → f a s ≡ g a s)
    → then_call x f ≡ then_call x g
then_call_ext (ok a, s) f g h = h a s
then_call_ext (err e, s) f g h = refl

module _ {W : Type 0} (p q : Platform W) (ha : HermesAgent) (obj : NsName)
    (same : SameBut obj p q) where
  document_in-same :
      (ref : HermesConfigMapKeyRef) (r : Result (Option ConfigMap))
      → document_in p ha ref r ≡ document_in q ha ref r
  document_in-same ref (err e) = refl
  document_in-same ref (ok none) = refl
  document_in-same ref (ok (some cm)) = elim (Option-cases (lookup cm.contents (get_key ref))) [
    | inl e ↦ rw e refl
    | inr (text, e) ↦ rw e (ap (λ (x : Result Json). parsed_document ref x) (same.1 text))
  ]

  get-same :
      (n : NsName) (s : State W) → n.name ≢ obj.name → get_config_map p n s ≡ get_config_map q n s
  unfolding get
  get-same n s apart = rw (same.0 n apart s.world) refl

  read-same :
      (ref : HermesConfigMapKeyRef) (s : State W)
      → ref.name ≢ obj.name
      → read_config_document p ha ref s ≡ read_config_document q ha ref s
  unfolding read_config_document
  read-same ref s apart =
      let n : NsName = record { namespace = ha.namespace; name = ref.name } in
      ap (λ (x : Result (Option ConfigMap) × State W). (document_in p ha ref x.0, x.1))
        (get-same n s apart)
      ∙ ap (λ (d : Result Json). (d, (get_config_map q n s).1)) (document_in-same ref _)

  resolve_document-same :
      (what : String) (ref : HermesConfigMapKeyRef) (s : State W)
      → ref.name ≢ obj.name
      → resolve_document p ha what ref s ≡ resolve_document q ha what ref s
  resolve_document-same what ref s apart =
      ap (λ (x : Result Json × State W). (resolving what x.0, x.1)) (read-same ref s apart)

  module _ (unread : Unread ha obj.name) where
    resolve_profiles-same :
        (names : List String) (m : StringMap Json) (s : State W)
        → resolve_profiles p ha names m s ≡ resolve_profiles q ha names m s
    unfolding resolve_profiles
    resolve_profiles-same [] m s = refl
    resolve_profiles-same (name ∷ names) m s =
        let rest = resolve_profiles-same names in
        elim (Option-cases (profile_ref (profile_of ha name))) [
          | inl e ↦ rw e (rest m s)
          | inr (ref, e) ↦ rw e (
              ap
                (λ (x : Result Json × State W).
                  then_call x (λ document. resolve_profiles p ha names (insert m name document)))
                (resolve_document-same _ ref s (unread.1 name ref e))
              ∙ then_call_ext _ _ _ (λ document t. rest (insert m name document) t))
        ]

    resolve_default-same : resolve_default p ha ≡ resolve_default q ha
    unfolding resolve_default
    resolve_default-same = elim (Option-cases (get_config_map_ref ha.spec.hermes)) [
      | inl e ↦ rw e refl
      | inr (ref, e) ↦ rw e (
          ap (λ (c : Call W Json). attempt c >>= λ document. pure (some document))
            (fun_ext (λ s. resolve_document-same "hermes." ref s (unread.0 ref e))))
    ]

    pub resolve_config_documents-same :
        resolve_config_documents p ha ≡ resolve_config_documents q ha
    unfolding resolve_config_documents
    resolve_config_documents-same =
        ap
          (λ (c : Exec W (Option Json)).
            attempt (lift (validate_config_sources ha))
            >> (c >>= λ default.
                attempt (resolve_profiles p ha (sorted_profile_names ha) []) >>= λ profiles.
                pure (record { default = default; profiles = profiles })))
          resolve_default-same
        ∙ ap
            (λ (c : Call W (StringMap Json)).
              attempt (lift (validate_config_sources ha))
              >> (resolve_default q ha >>= λ default. attempt c >>= λ profiles.
                  pure (record { default = default; profiles = profiles })))
            (fun_ext (λ s. resolve_profiles-same (sorted_profile_names ha) [] s))

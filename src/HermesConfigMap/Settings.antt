-- ===== src/HermesConfigMap/Settings.antt =====
-- The settings of the user's document under the defaults that are put into it
-- (buildHermesConfigMapData, internal/usecase/hermesagent_hermes_configmap.go).
use hermes_agent_operator.Prelude.{
  String, Bool, true, false, Option, some, List, [], ◌∷◌, ◌≡◌, ◌≢◌, ◌∙◌, refl, sym, ap, StringMap,
  subst,
}
use hermes_agent_operator.Json.{
  Json, null, bool, number, string, array, object, JsonObject, rounded,
}
use hermes_agent_operator.Api.Hermes.{HermesProfile, get_config, get_profiles}
use hermes_agent_operator.Api.Agent.{HermesAgent, searxng_enabled}
use hermes_agent_operator.Kube.Client.{ok_injective, on_ok_ok, Result, ok, on_ok}
use hermes_agent_operator.HermesConfigMap.Defaults.{
  put_if_absent, unmarshal_map, with_default, with_camofox, apply_searxng_config_defaults,
  apply_multiplex_profiles_default, apply_camofox_config_defaults,
}
use hermes_agent_operator.HermesConfigMap.Data.{
  ResolvedConfigDocuments, apply_if, managed_persistence, with_sidecar_defaults,
  with_profiles_default, or_else, default_document,
}
use hermes_agent_operator.HermesConfigMap.Sections.{
  at_path, Keeps, Keeps-put_if_absent, Keeps-in_section, at_path-rounded, rounded-rounded,
}

-- The path is none of the objects that the defaults are put into: the document, its sections web, gateway
-- and browser, and browser.camofox.
pub record IsSetting (ks : List String) : Type 0 where
  pub not_root : ks ≢ []
  pub not_web : ks ≢ "web" ∷ []
  pub not_gateway : ks ≢ "gateway" ∷ []
  pub not_browser : ks ≢ "browser" ∷ []
  pub not_camofox : ks ≢ "browser" ∷ "camofox" ∷ []

some_injective : {A : Type 0} {a b : A} → some a ≡ some b → a ≡ b
some_injective h = cc

Keeps-default :
    (section k : String) (d : Json)
    → Keeps (λ ks. (ks ≢ []) × (ks ≢ section ∷ [])) (λ cfg. with_default cfg section k d)
Keeps-default section k d = record {
  at = λ m ks v (r, n) h.
      (Keeps-in_section section (λ x. put_if_absent x k d) (λ ks. ks ≢ [])
          (Keeps-put_if_absent k d)).at
        m ks v
        (record {
          not_root = r;
          not_section = n;
          inside = λ js e f. n (e ∙ ap (λ (l : List String). section ∷ l) f);
        })
        h;
}

Keeps-camofox :
    Keeps
      (λ ks. (ks ≢ []) × ((ks ≢ "browser" ∷ []) × (ks ≢ "browser" ∷ "camofox" ∷ [])))
      with_camofox
Keeps-camofox = record {
  at = λ m ks v (r, (n, c)) h.
      (Keeps-in_section "browser" (λ x. with_default x "camofox" "managed_persistence" (bool true))
          (λ ks. (ks ≢ []) × (ks ≢ "camofox" ∷ []))
          (Keeps-default "camofox" "managed_persistence" (bool true))).at
        m ks v
        (record {
          not_root = r;
          not_section = n;
          inside = λ js e. (
            λ f. n (e ∙ ap (λ (l : List String). "browser" ∷ l) f),
            λ f. c (e ∙ ap (λ (l : List String). "browser" ∷ l) f),
          );
        })
        h;
}

module _ (float : String → String) where
  -- At the path the document has the value, with each number as it is or as the float64 that it is read as.
  abbrev pub HasValue : List String → Json → Json → Type 0
  HasValue ks v x = (w : Json) × (at_path ks x ≡ some w) × (rounded float w ≡ rounded float v)

  unmarshalled :
      (raw : Json) {cfg : JsonObject} (k : String) (ks : List String) (v : Json)
      → unmarshal_map float raw ≡ ok cfg
      → at_path (k ∷ ks) raw ≡ some v
      → at_path (k ∷ ks) (object cfg) ≡ some (rounded float v)
  unfolding rounded
  unmarshalled null k ks v h e = cc
  unmarshalled (object m) {cfg} k ks v h e =
      subst (λ (x : JsonObject). at_path (k ∷ ks) (object x) ≡ some (rounded float v))
        (ok_injective h) (at_path-rounded float (k ∷ ks) (object m) v e)
  unmarshalled (bool b) k ks v h e = cc
  unmarshalled (number n) k ks v h e = cc
  unmarshalled (string s) k ks v h e = cc
  unmarshalled (array l) k ks v h e = cc

  -- Each setting of the first document is in the second.
  abbrev Carries : Json → Json → Type 0
  Carries before after =
      (ks : List String) (v : Json) → IsSetting ks → HasValue ks v before → HasValue ks v after

  module _ (steady : (n : String) → float (float n) ≡ float n) where
    -- A step that changes the object of a document.
    carried_by :
        (P : List String → Type 0) (f : JsonObject → JsonObject)
        → Keeps P f
        → ((ks : List String) → IsSetting ks → P ks)
        → (raw : Json) {after : Json}
        → on_ok (unmarshal_map float raw) (λ cfg. ok (object (f cfg))) ≡ ok after
        → Carries raw after
    carried_by P f keeps apart raw {after} h [] v setting has = absurd (setting.not_root refl)
    carried_by P f keeps apart raw {after} h (k ∷ ks) v setting (w, there, same) =
        let (cfg, e, made) = on_ok_ok (unmarshal_map float raw) (λ cfg. ok (object (f cfg))) h in
        (
          rounded float w,
          subst (λ (x : Json). at_path (k ∷ ks) x ≡ some (rounded float w)) (ok_injective made)
              (keeps.at cfg (k ∷ ks) (rounded float w) (apart (k ∷ ks) setting)
                (unmarshalled raw k ks w e there)),
          rounded-rounded float steady w ∙ same,
        )

    Carries-searxng :
        (raw : Json) {after : Json}
        → apply_searxng_config_defaults float raw ≡ ok after
        → Carries raw after
    unfolding apply_searxng_config_defaults
    Carries-searxng raw h =
        carried_by _ _ (Keeps-default "web" "search_backend" (string "searxng"))
          (λ ks setting. (setting.not_root, setting.not_web)) raw h

    Carries-multiplex :
        (raw : Json) {after : Json}
        → apply_multiplex_profiles_default float raw ≡ ok after
        → Carries raw after
    unfolding apply_multiplex_profiles_default
    Carries-multiplex raw h =
        carried_by _ _ (Keeps-default "gateway" "multiplex_profiles" (bool true))
          (λ ks setting. (setting.not_root, setting.not_gateway)) raw h

    Carries-camofox :
        (raw : Json) {after : Json}
        → apply_camofox_config_defaults float raw ≡ ok after
        → Carries raw after
    unfolding apply_camofox_config_defaults
    Carries-camofox raw h =
        carried_by _ _ Keeps-camofox
          (λ ks setting. (setting.not_root, (setting.not_browser, setting.not_camofox))) raw h

    Carries-if :
        (b : Bool) (f : Json → Result Json) (raw : Json) {after : Json}
        → ((x : Json) → f raw ≡ ok x → Carries raw x)
        → apply_if b f raw ≡ ok after
        → Carries raw after
    Carries-if true f raw {after} carries h ks v setting has = carries after h ks v setting has
    Carries-if false f raw {after} carries h ks v setting has =
        subst (HasValue ks v) (ok_injective h) has

    Carries-sidecars :
        (ha : HermesAgent) (raw : Json) {after : Json}
        → with_sidecar_defaults float ha raw ≡ ok after
        → Carries raw after
    Carries-sidecars ha raw h ks v setting has =
        let (raw', e, e') =
          on_ok_ok
            (apply_if (searxng_enabled ha.spec.searxng) (apply_searxng_config_defaults float) raw) _
            h in
        Carries-if (managed_persistence ha.spec.camofox) (apply_camofox_config_defaults float) raw'
          (λ x q. Carries-camofox raw' q) e' ks v setting
          (Carries-if (searxng_enabled ha.spec.searxng) (apply_searxng_config_defaults float) raw
            (λ x q. Carries-searxng raw q) e ks v setting has)

    Carries-profiles :
        (ps : StringMap HermesProfile) (raw : Json) {after : Json}
        → with_profiles_default float ps (some raw) ≡ ok (some after)
        → Carries raw after
    Carries-profiles [] raw {after} h ks v setting has =
        subst (HasValue ks v) (some_injective (ok_injective h)) has
    Carries-profiles (p ∷ ps) raw {after} h ks v setting has =
        let (raw', e, made) = on_ok_ok (apply_multiplex_profiles_default float raw) _ h in
        subst (HasValue ks v) (some_injective (ok_injective made))
          (Carries-multiplex raw e ks v setting has)

    -- Where a number that was read as a float64 and written is read and written as the same text again:
    -- the default profile's document, as it goes into the ConfigMap, has each setting of the user's
    -- document, be that from a ConfigMap or in the spec, at the same path of keys and with the same
    -- value, up to the text of the float64 that a number in it is read as. The paths at which the
    -- defaults are put in are left out, so that an object there may get a key more, and what is no object
    -- is replaced: the document itself, web, gateway, browser, and browser.camofox.
    pub default_document-HasValue :
        (ha : HermesAgent) (refs : ResolvedConfigDocuments) (raw after : Json)
        → or_else refs.default (get_config ha.spec.hermes) ≡ some raw
        → default_document float ha refs ≡ ok (some after)
        → (ks : List String) (v : Json) → IsSetting ks
        → at_path ks raw ≡ some v
        → HasValue ks v after
    unfolding default_document
    default_document-HasValue ha refs raw after given h ks v setting there =
        let (with_sidecars, e, e') = on_ok_ok _ _ (rw given at h) in
        let (raw', e1, made) = on_ok_ok (with_sidecar_defaults float ha raw) _ e in
        Carries-profiles (get_profiles ha.spec.hermes) raw'
          (subst
            (λ (x : Option Json).
              with_profiles_default float (get_profiles ha.spec.hermes) x ≡ ok (some after))
            (sym (ok_injective made)) e')
          ks v setting (Carries-sidecars ha raw e1 ks v setting (v, there, refl))

-- ===== src/Egress/Refs.antt =====
-- The Secrets that the user supplies to the proxy, against those that the operator manages for it
-- (ValidateEgressSecretRefs and its neighbours, api/v1alpha1/hermesagent_egress.go).
use hermes_agent_operator.Prelude.{
  String, ◌⧺◌, Bool, true, false, List, [], ◌∷◌, ◌++◌, not, ◌&&◌, ◌≡◌, ◌≢◌, ◌↔◌, refl, arith,
  eq_iff, str_eq, is_empty, contains, Bool-cases, inl, inr, if◌then◌else◌,
}
use hermes_agent_operator.Api.Egress.{
  egress_enabled, get_credentials_secret_name, get_ca_secret_ref_name,
}
use hermes_agent_operator.Api.Agent.{HermesAgent, get_egress_secret_name, get_egress_ca_secret_name}
use hermes_agent_operator.Kube.Client.{Error, Result, ok, err, errorf, quoted}
use hermes_agent_operator.Egress.Ca.{tls_cert_key, tls_key_key, managed_cert_key, managed_key_key}

abbrev collides : String → String → Result (Unit {0})
collides what name = err (
    errorf (
      "egress " ⧺ what ⧺ " Secret " ⧺ quoted name ⧺ " collides with a Secret the operator manages"))

abbrev pub managed_names : HermesAgent → List String
managed_names ha = get_egress_secret_name ha ∷ get_egress_ca_secret_name ha ∷ []

abbrev pub credentials_collide : HermesAgent → Bool
credentials_collide ha =
    let creds = get_credentials_secret_name ha.spec.egress in
    not (is_empty creds) && contains (managed_names ha) creds

-- A user's CA may have the name of the managed CA.
abbrev pub ca_collides : HermesAgent → Bool
ca_collides ha =
    let ca = get_ca_secret_ref_name ha.spec.egress in
    not (is_empty ca) && str_eq ca (get_egress_secret_name ha)

unfoldable pub validate_egress_secret_refs : HermesAgent → Result (Unit {0})
validate_egress_secret_refs ha =
    if credentials_collide ha
    then collides "credentials" (get_credentials_secret_name ha.spec.egress)
    else if ca_collides ha
    then collides "CA" (get_ca_secret_ref_name ha.spec.egress)
    else ok tt

-- The Secret of the CA, and the keys of its certificate and its key.
unfoldable pub get_egress_ca_source : HermesAgent → String × (String × String)
get_egress_ca_source ha =
    let ref = get_ca_secret_ref_name ha.spec.egress in
    if is_empty ref
    then (get_egress_ca_secret_name ha, (managed_cert_key, managed_key_key))
    else (ref, (tls_cert_key, tls_key_key))

abbrev unless_empty : String → List String
unless_empty n = if is_empty n then [] else n ∷ []

unfoldable pub get_egress_source_secret_names : HermesAgent → List String
get_egress_source_secret_names ha =
    if egress_enabled ha.spec.egress
    then unless_empty (get_credentials_secret_name ha.spec.egress)
      ++ unless_empty (get_ca_secret_ref_name ha.spec.egress)
    else []

-- The references that are accepted: the credentials are in none of the two managed Secrets, and a CA of
-- the user's is not in that of the tokens.
abbrev pub IsApart : HermesAgent → Type 0
IsApart ha =
    (get_credentials_secret_name ha.spec.egress ≢ ""
      → (get_credentials_secret_name ha.spec.egress ≢ get_egress_secret_name ha)
        × (get_credentials_secret_name ha.spec.egress ≢ get_egress_ca_secret_name ha))
    × (get_ca_secret_ref_name ha.spec.egress ≢ ""
        → get_ca_secret_ref_name ha.spec.egress ≢ get_egress_secret_name ha)

accepted :
    (x y : Error) (a b : Bool)
    → ((if a then err x else if b then err y else ok (tt {0})) ≡ ok tt)
      ↔ ((a ≡ false) × (b ≡ false))
accepted x y true b = (λ h. cc, λ h. cc)
accepted x y false true = (λ h. cc, λ h. cc)
accepted x y false false = (λ h. (refl, refl), λ h. refl)

creds_apart :
    (creds secret ca_secret : String)
    → (not (is_empty creds) && contains (secret ∷ ca_secret ∷ []) creds ≡ false)
      ↔ (creds ≢ "" → (creds ≢ secret) × (creds ≢ ca_secret))
creds_apart creds secret ca_secret = (
  λ h full. (
    λ e. ground (arith, eq_iff creds "", eq_iff secret creds, full, e),
    λ e. ground (arith, eq_iff creds "", eq_iff ca_secret creds, full, e),
  ),
  λ h. elim (Bool-cases (is_empty creds)) [
    | inl e ↦ rw e refl
    | inr e ↦
        let (a, b) = h (λ same. ground (arith, eq_iff creds "")) in
        ground (arith, eq_iff secret creds, eq_iff ca_secret creds)
  ],
)

ca_apart :
    (ca secret : String) → (not (is_empty ca) && str_eq ca secret ≡ false) ↔ (ca ≢ "" → ca ≢ secret)
ca_apart ca secret = (
  λ h full e. ground (arith, eq_iff ca "", eq_iff ca secret, full, e),
  λ h. elim (Bool-cases (is_empty ca)) [
    | inl e ↦ rw e refl
    | inr e ↦ let a = h (λ same. ground (arith, eq_iff ca "")) in ground (arith, eq_iff ca secret)
  ],
)

-- The references are accepted exactly if the Secret of the credentials, where there is one, is neither of
-- the two that the operator manages, and a CA of the user's is not the one with the tokens.
pub validate_egress_secret_refs_iff :
    (ha : HermesAgent) → (validate_egress_secret_refs ha ≡ ok tt) ↔ IsApart ha
unfolding validate_egress_secret_refs
validate_egress_secret_refs_iff ha =
    let creds =
      creds_apart (get_credentials_secret_name ha.spec.egress) (get_egress_secret_name ha)
        (get_egress_ca_secret_name ha) in
    let ca = ca_apart (get_ca_secret_ref_name ha.spec.egress) (get_egress_secret_name ha) in
    let both = accepted _ _ (credentials_collide ha) (ca_collides ha) in
    (λ h. let (a, b) = both.0 h in (creds.0 a, ca.0 b), λ (a, b). both.1 (creds.1 a, ca.1 b))

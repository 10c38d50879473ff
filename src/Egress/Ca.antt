-- ===== src/Egress/Ca.antt =====
-- The certificate authority of the proxy (internal/usecase/hermesagent_egress_ca_secret.go). The key
-- pair and the certificate are made by `Platform.generate_ca`.
pub mod Usable
pub mod Requests
use hermes_agent_operator.Prelude.{
  ℕ, String, ◌⧺◌, Bool, true, false, Option, none, some, List, [], ◌∷◌, not, ◌&&◌, ◌==◌, str_eq,
  is_empty, StringMap, lookup, get_or, is_some, if_some, if◌then◌else◌,
}
use hermes_agent_operator.Objects.{NsName, Secret}
use hermes_agent_operator.Api.Egress.{egress_enabled, get_ca_secret_ref_name}
use hermes_agent_operator.Api.Agent.{
  HermesAgent, HermesAgentStatus, get_egress_ca_secret_name, resource_labels,
}
use hermes_agent_operator.Kube.Client.{
  Error, Result, ok, err, on_ok, errorf, wrap, quoted, Certificate, Platform,
}
use hermes_agent_operator.Kube.Exec.{
  State, Outcome, Handler, Call, Exec, pure, return, attempt, gets, modify_status, finish, when,
  lift, done, failed_with, ◌>>=◌, ◌>>◌,
}
use hermes_agent_operator.Kube.Calls.{
  get_secret, create_secret, delete_secret, update_hermes_agent_status,
}
use hermes_agent_operator.Conditions.{deferred}

abbrev pub tls_cert_key : String
tls_cert_key = "tls.crt"

abbrev pub tls_key_key : String
tls_key_key = "tls.key"

abbrev pub managed_cert_key : String
managed_cert_key = "ca.crt"

abbrev pub managed_key_key : String
managed_key_key = "ca.key"

-- `data[k]`, "" where the key is missing.
abbrev pub entry : StringMap String → String → String
entry m k = get_or (lookup m k) ""

abbrev ca_error : String → String → Result (Unit {0})
ca_error ref_name problem = err (errorf ("egress CA Secret " ⧺ quoted ref_name ⧺ problem))

abbrev missing_key : String → String → Result (Unit {0})
missing_key ref_name k = ca_error ref_name (" missing key " ⧺ quoted k)

-- The two checks of the certificate.
pub check_certificate : String → Certificate → Result (Unit {0})
check_certificate ref_name cert =
    if not cert.is_ca
    then ca_error ref_name
        " certificate is not a CA (isCA=false); iron-proxy needs a CA to sign leaf certs — issue it with cert-manager isCA: true"
    else if not (cert.key_usage == 0) && not cert.cert_sign
    then ca_error ref_name " certificate lacks the certSign key usage"
    else ok tt

-- `fmt.Errorf("egress CA Secret %q: parsing certificate: %w", …)`.
abbrev pub parsed : String → Result Certificate → Result Certificate
parsed ref_name (ok cert) = ok cert
parsed ref_name (err e) =
    err (wrap ("egress CA Secret " ⧺ quoted ref_name ⧺ ": parsing certificate") e)

module _ {W : Type 0} (p : Platform W) where
  pub validate_egress_ca_secret : String → StringMap String → Result (Unit {0})
  unfolding check_certificate
  validate_egress_ca_secret ref_name contents =
      if is_empty (entry contents tls_cert_key)
      then missing_key ref_name tls_cert_key
      else if is_empty (entry contents tls_key_key)
      then missing_key ref_name tls_key_key
      else if_some (p.pem_decode (entry contents tls_cert_key))
          (λ block.
            on_ok (parsed ref_name (p.parse_certificate block))
              λ cert. check_certificate ref_name cert)
          (ca_error ref_name (" key " ⧺ quoted tls_cert_key ⧺ " is not PEM-encoded"))

  module _ (ha : HermesAgent) where
    abbrev pub managed_ns_name : NsName
    managed_ns_name = record { namespace = ha.namespace; name = get_egress_ca_secret_name ha }

    abbrev pub ref_name : String
    ref_name = get_ca_secret_ref_name ha.spec.egress

    -- The PEM texts of the certificate and the key.
    pub generate : Call W (String × String)
    generate s = let (r, w) = p.generate_ca s.world in (r, record s { world = w })

    -- The Secret, once they are generated.
    pub build_egress_ca_secret : String × String → Secret
    build_egress_ca_secret (cert, key) = record {
      meta = record {
        name = get_egress_ca_secret_name ha;
        namespace = ha.namespace;
        labels = resource_labels ha;
        annotations = [];
        resource_version = "";
        creation_timestamp = 0;
        deletion_timestamp = none;
      };
      contents = (managed_cert_key, cert) ∷ (managed_key_key, key) ∷ [];
    }

    pub record_name : String → HermesAgentStatus → HermesAgentStatus
    record_name name status =
        let managed = status.managed_resources in
        record status { managed_resources = record managed { egress_ca_secret = name } }

    -- Written only on a change.
    pub record_egress_ca_secret : String → Exec W Outcome
    record_egress_ca_secret name = do
      recorded ← gets (λ s. s.status.managed_resources.egress_ca_secret)
      when (not (str_eq recorded name))
          (do modify_status (record_name name); attempt (update_hermes_agent_status p ha))
      pure done

    -- The managed CA, if it is there, goes, but not when the user's reference has its name.
    pub drop_managed : Option Secret → Exec W (Unit {0})
    drop_managed existing =
        when (is_some existing && not (str_eq ref_name (get_egress_ca_secret_name ha)))
          (attempt (delete_secret p managed_ns_name))

    pub check_user_secret : Option Secret → Result (Unit {0})
    unfolding validate_egress_ca_secret
    check_user_secret none = err (errorf ("egress CA Secret " ⧺ quoted ref_name ⧺ " not found"))
    check_user_secret (some secret) = validate_egress_ca_secret ref_name secret.contents

    pub use_user_secret : Option Secret → Exec W Outcome
    use_user_secret existing = do
      user ← attempt (get_secret p (record { namespace = ha.namespace; name = ref_name }))
      attempt (lift (check_user_secret user))
      drop_managed existing
      record_egress_ca_secret ""

    -- A managed CA is never made again.
    pub keep_managed : Option Secret → Exec W Outcome
    keep_managed (some _) = record_egress_ca_secret (get_egress_ca_secret_name ha)
    keep_managed none = do
      pair ← attempt generate
      attempt (create_secret p ha (build_egress_ca_secret pair))
      record_egress_ca_secret (get_egress_ca_secret_name ha)

    pub disabled : Option Secret → Exec W Outcome
    disabled existing = do drop_managed existing; record_egress_ca_secret ""

    pub with_existing : Option Secret → Exec W Outcome
    with_existing existing =
        if not (egress_enabled ha.spec.egress)
        then disabled existing
        else if not (is_empty ref_name)
        then use_user_secret existing
        else keep_managed existing

    pub egress_ca_body : Exec W Outcome
    egress_ca_body = do existing ← attempt (get_secret p managed_ns_name); with_existing existing

    pub reconcile_egress_ca : Handler W
    reconcile_egress_ca = deferred p ha "EgressCAReconcileFailed" (finish egress_ca_body)

-- ===== src/Api/Egress.antt =====
-- spec.egress (api/v1alpha1/hermesagent_egress.go): the types and the accessors. The credentials that
-- the proxy swaps are resolved in Egress/Resolve.antt.
use hermes_agent_operator.Prelude.{
  ℕ, String, Bool, false, Option, none, some, List, [], ◌∷◌, get_or, and_then, if_some,
}
use hermes_agent_operator.PodTemplate.{EnvVar, ResourceRequirements}

pub record EgressSecretRef : Type 0 where
  pub name : String

pub record EgressCredentials : Type 0 where
  pub secret_ref : EgressSecretRef

pub record EgressCa : Type 0 where
  pub secret_ref : Option EgressSecretRef

pub record EgressSecret : Type 0 where
  pub name : String
  pub hosts : List String
  pub match_headers : List String
  pub aliases : List String

pub record EgressConfig : Type 0 where
  pub tunnel_port : Option ℕ
  pub upstream_deny_cidrs : List String
  pub extra_allowed_hosts : List String
  pub extra_secrets : List EgressSecret

pub record Egress : Type 0 where
  pub enabled : Bool
  pub image : String
  pub resources : Option ResourceRequirements
  pub env : List EnvVar
  pub credentials : Option EgressCredentials
  pub ca : Option EgressCa
  pub config : Option EgressConfig

-- `source_key` is the key of the credentials Secret that holds the real value.
pub record EgressCredential : Type 0 where
  pub secret : EgressSecret
  pub open secret use *
  pub source_key : String

abbrev pub default_egress_tunnel_port : ℕ
default_egress_tunnel_port = 9090

abbrev pub egress_enabled : Option Egress → Bool
egress_enabled none = false
egress_enabled (some e) = e.enabled

abbrev pub get_credentials_secret_name : Option Egress → String
get_credentials_secret_name e =
    if_some (and_then e (λ x. x.credentials)) (λ c. c.secret_ref.name) ""

abbrev pub get_ca_secret_ref_name : Option Egress → String
get_ca_secret_ref_name e =
    if_some (and_then e (λ x. and_then x.ca (λ c. c.secret_ref))) (λ r. r.name) ""

abbrev pub get_tunnel_port : Option Egress → ℕ
get_tunnel_port e =
    get_or (and_then e (λ x. and_then x.config (λ c. c.tunnel_port))) default_egress_tunnel_port

abbrev pub get_extra_secrets : Option Egress → List EgressSecret
get_extra_secrets e = if_some (and_then e (λ x. x.config)) (λ c. c.extra_secrets) []

abbrev pub env_names : EgressSecret → List String
env_names s = s.name ∷ s.aliases

-- ===== src/Api/Networking.antt =====
-- spec.networking (api/v1alpha1/hermesagent_networking.go): the Service and the Ingress.
use hermes_agent_operator.Prelude.{
  ℕ, String, StringMap, Bool, false, Option, none, some, List, is_empty, if◌then◌else◌,
}

pub record ServicePort : Type 0 where
  pub name : String
  pub port : ℕ
  pub target_port : Option ℕ
  pub protocol : String

pub record Service : Type 0 where
  pub type : String
  pub annotations : StringMap String
  pub ports : List ServicePort

pub record IngressPath : Type 0 where
  pub path : String
  pub path_type : String
  pub port : ℕ

pub record IngressHost : Type 0 where
  pub host : String
  pub paths : List IngressPath

pub record IngressTls : Type 0 where
  pub hosts : List String
  pub secret_name : String

pub record Ingress : Type 0 where
  pub enabled : Bool
  pub class_name : Option String
  pub annotations : StringMap String
  pub hosts : List IngressHost
  pub tls : List IngressTls

pub record Networking : Type 0 where
  pub service : Service
  pub ingress : Ingress

abbrev pub get_service : Option Networking → Option Service
get_service none = none
get_service (some n) = some n.service

abbrev pub get_ingress : Option Networking → Option Ingress
get_ingress none = none
get_ingress (some n) = some n.ingress

abbrev pub get_type : Option Service → String
get_type none = "ClusterIP"
get_type (some s) = if is_empty s.type then "ClusterIP" else s.type

abbrev pub ingress_enabled : Option Ingress → Bool
ingress_enabled none = false
ingress_enabled (some i) = i.enabled

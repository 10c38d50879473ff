-- ===== src/IronProxy.antt =====
-- The part of iron-proxy's proxy.yaml that the operator renders
-- (internal/usecase/hermesagent_egress_secret.go).
use hermes_agent_operator.Prelude.{ℕ, String, Bool, List}

pub record IronProxyDns : Type 0 where
  pub enabled : Bool

pub record IronProxyProxy : Type 0 where
  pub tunnel_listen : String
  pub http_listen : String
  pub https_listen : String
  pub max_request_body_bytes : ℕ
  pub max_response_body_bytes : ℕ
  pub upstream_response_header_timeout : String
  pub upstream_deny_cidrs : List String

pub record IronProxyListen : Type 0 where
  pub listen : String

pub record IronProxyTls : Type 0 where
  pub mode : String
  pub ca_cert : String
  pub ca_key : String
  pub cert_cache_size : ℕ
  pub leaf_cert_expiry_hours : ℕ

pub record IronProxySecretSource : Type 0 where
  pub type : String
  pub var : String

pub record IronProxySecretReplace : Type 0 where
  pub proxy_value : String
  pub match_headers : List String
  pub match_query : Bool
  pub match_body : Bool
  pub require : Bool

pub record IronProxyRule : Type 0 where
  pub host : String
  pub methods : List String

pub record IronProxySecret : Type 0 where
  pub source : IronProxySecretSource
  pub replace : IronProxySecretReplace
  pub rules : List IronProxyRule

-- `ironProxyTransform`: the two transforms that are rendered, each with its name and its configuration.
pub data IronProxyTransform : Type 0 where
  allowlist : List String → IronProxyTransform
  secrets : List IronProxySecret → IronProxyTransform

pub record IronProxyLog : Type 0 where
  pub level : String

pub record IronProxyConfig : Type 0 where
  pub dns : IronProxyDns
  pub proxy : IronProxyProxy
  pub metrics : IronProxyListen
  pub tls : IronProxyTls
  pub transforms : List IronProxyTransform
  pub log : IronProxyLog

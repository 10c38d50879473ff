-- ===== src/Egress/Proxy.antt =====
-- proxy.yaml (buildEgressProxyYAML, internal/usecase/hermesagent_egress_secret.go; GetAllowedHosts and its
-- neighbours, api/v1alpha1/hermesagent_egress.go).
use hermes_agent_operator.Prelude.{
  decimal, ◌+◌, String, ◌⧺◌, true, false, Option, List, [], ◌∷◌, ◌++◌, map, ◌||◌, StringMap, lookup,
  get_or, and_then, if_some, contains, is_empty, if◌then◌else◌,
}
use hermes_agent_operator.Api.Egress.{Egress, EgressSecret, EgressCredential, get_tunnel_port}
use hermes_agent_operator.Api.Agent.{HermesAgent}
use hermes_agent_operator.IronProxy.{
  IronProxySecret, IronProxyRule, IronProxyTransform, allowlist, secrets, IronProxyConfig,
}
use hermes_agent_operator.Egress.Ca.{managed_cert_key, managed_key_key}

abbrev pub default_egress_allowed_hosts : List String
default_egress_allowed_hosts =
    "openrouter.ai" ∷ "*.openrouter.ai" ∷ "api.openai.com" ∷ "api.anthropic.com"
    ∷ "generativelanguage.googleapis.com" ∷ "api.x.ai" ∷ "api.mistral.ai" ∷ "api.groq.com"
    ∷ "api.together.xyz" ∷ "api.deepseek.com" ∷ "inference.nousresearch.com" ∷ []

-- The loop over the extra hosts.
abbrev pub add_hosts : List String → List String → List String
add_hosts hosts [] = hosts
add_hosts hosts (h ∷ hs) =
    add_hosts (if is_empty h || contains hosts h then hosts else hosts ++ (h ∷ [])) hs

unfoldable pub get_allowed_hosts : Option Egress → List String
get_allowed_hosts e =
    if_some (and_then e (λ x. x.config))
      (λ c. add_hosts default_egress_allowed_hosts c.extra_allowed_hosts)
      default_egress_allowed_hosts

abbrev pub get_upstream_deny_cidrs : Option Egress → List String
get_upstream_deny_cidrs e = if_some (and_then e (λ x. x.config)) (λ c. c.upstream_deny_cidrs) []

abbrev pub default_egress_upstream_deny_cidrs : List String
default_egress_upstream_deny_cidrs =
    "127.0.0.0/8" ∷ "::1/128" ∷ "169.254.0.0/16" ∷ "fe80::/10" ∷ "10.0.0.0/8" ∷ "172.16.0.0/12"
    ∷ "192.168.0.0/16" ∷ "fc00::/7" ∷ "::ffff:0:0/96" ∷ "100.64.0.0/10" ∷ "198.18.0.0/15" ∷ []

abbrev pub or_default : List String → List String → List String
or_default [] d = d
or_default (x ∷ xs) d = x ∷ xs

abbrev pub get_match_headers : EgressSecret → List String
get_match_headers s = or_default s.match_headers ("Authorization" ∷ [])

abbrev pub egress_rule_methods : List String
egress_rule_methods = "GET" ∷ "HEAD" ∷ "POST" ∷ "PUT" ∷ "PATCH" ∷ "DELETE" ∷ "OPTIONS" ∷ []

abbrev pub egress_config_dir : String
egress_config_dir = "/etc/iron-proxy"

abbrev pub rule_for : String → IronProxyRule
rule_for h = record { host = h; methods = egress_rule_methods }

-- `tokens[c.Name]`, "" where there is none.
abbrev pub token_of : StringMap String → EgressCredential → String
token_of tokens c = get_or (lookup tokens c.secret.name) ""

abbrev pub proxy_secret : StringMap String → EgressCredential → IronProxySecret
proxy_secret tokens c = record {
  source = record { type = "env"; var = c.source_key };
  replace = record {
    proxy_value = token_of tokens c;
    match_headers = get_match_headers c.secret;
    match_query = true;
    match_body = false;
    require = true;
  };
  rules = map rule_for c.hosts;
}

-- The loop over the credentials: the hosts of each are allowed too.
abbrev pub add_domain : List String → List String → List String
add_domain domains [] = domains
add_domain domains (h ∷ hs) =
    add_domain (if contains domains h then domains else domains ++ (h ∷ [])) hs

abbrev pub add_domains : List String → List EgressCredential → List String
add_domains domains [] = domains
add_domains domains (c ∷ cs) = add_domains (add_domain domains c.hosts) cs

-- The secrets transform is there if there is a secret.
abbrev pub proxy_transforms : List String → List IronProxySecret → List IronProxyTransform
proxy_transforms domains [] = allowlist domains ∷ []
proxy_transforms domains (x ∷ xs) = allowlist domains ∷ secrets (x ∷ xs) ∷ []

unfoldable pub build_egress_proxy :
    HermesAgent → List EgressCredential → StringMap String → IronProxyConfig
build_egress_proxy ha creds tokens =
    let port = get_tunnel_port ha.spec.egress in
    record {
      dns = record { enabled = false };
      proxy = record {
        tunnel_listen = "127.0.0.1:" ⧺ decimal port;
        http_listen = "127.0.0.1:" ⧺ decimal (port + 1);
        https_listen = "127.0.0.1:0";
        max_request_body_bytes = 16777216;
        max_response_body_bytes = 0;
        upstream_response_header_timeout = "120s";
        upstream_deny_cidrs =
            or_default (get_upstream_deny_cidrs ha.spec.egress) default_egress_upstream_deny_cidrs;
      };
      metrics = record { listen = "127.0.0.1:0" };
      tls = record {
        mode = "mitm";
        ca_cert = egress_config_dir ⧺ "/" ⧺ managed_cert_key;
        ca_key = egress_config_dir ⧺ "/" ⧺ managed_key_key;
        cert_cache_size = 1000;
        leaf_cert_expiry_hours = 168;
      };
      transforms =
          proxy_transforms (add_domains (get_allowed_hosts ha.spec.egress) creds)
            (map (proxy_secret tokens) creds);
      log = record { level = "info" };
    }

abbrev pub get_https_proxy_url : Option Egress → String
get_https_proxy_url e = "http://127.0.0.1:" ⧺ decimal (get_tunnel_port e)

abbrev pub get_http_proxy_url : Option Egress → String
get_http_proxy_url e = "http://127.0.0.1:" ⧺ decimal (get_tunnel_port e + 1)

abbrev pub egress_agent_ca_path : String
egress_agent_ca_path = "/etc/hermes-egress/ca.crt"

abbrev pub no_proxy : String
no_proxy = "localhost,127.0.0.1,.svc,.cluster.local,${KUBERNETES_SERVICE_HOST}"

unfoldable pub get_agent_proxy_env : Option Egress → StringMap String
get_agent_proxy_env e =
    ("HTTPS_PROXY", get_https_proxy_url e)
    ∷ ("https_proxy", get_https_proxy_url e)
    ∷ ("HTTP_PROXY", get_http_proxy_url e)
    ∷ ("http_proxy", get_http_proxy_url e)
    ∷ ("NO_PROXY", no_proxy)
    ∷ ("no_proxy", no_proxy)
    ∷ ("SSL_CERT_FILE", egress_agent_ca_path)
    ∷ ("REQUESTS_CA_BUNDLE", egress_agent_ca_path)
    ∷ ("NODE_EXTRA_CA_CERTS", egress_agent_ca_path)
    ∷ ("GIT_SSL_CAINFO", egress_agent_ca_path)
    ∷ []

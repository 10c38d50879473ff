-- ===== src/Egress/Tokens.antt =====
-- The Secret with proxy.yaml and the agent's proxy tokens
-- (internal/usecase/hermesagent_egress_secret.go).
pub mod Entries
pub mod Minted
pub mod Agrees
pub mod Steady
mod Examples
use hermes_agent_operator.Prelude.{
  String, ◌⧺◌, Bool, true, false, Option, none, some, List, [], ◌∷◌, not, str_eq, is_empty, is_some,
  StringMap, lookup, insert, keys, get_or, if◌then◌else◌,
}
use hermes_agent_operator.Objects.{NsName, Secret}
use hermes_agent_operator.Api.Egress.{
  EgressCredential, env_names, egress_enabled, get_credentials_secret_name,
}
use hermes_agent_operator.Api.Agent.{
  HermesAgent, HermesAgentStatus, get_egress_secret_name, resource_labels,
}
use hermes_agent_operator.Kube.Client.{Error, Result, ok, err, errorf, wrap, quoted, Platform}
use hermes_agent_operator.Kube.Exec.{
  State, Outcome, Handler, Call, Exec, pure, attempt, gets, modify_status, finish, when, lift, done,
  ◌>>=◌, ◌>>◌,
}
use hermes_agent_operator.Kube.Calls.{
  get_secret, create_secret, update_secret, delete_secret, update_hermes_agent_status, read_random,
}
use hermes_agent_operator.Conditions.{deferred}
use hermes_agent_operator.HermesSecret.{kept, contents_equal}
use hermes_agent_operator.Egress.Ports.{validate_egress_ports}
use hermes_agent_operator.Egress.Refs.{validate_egress_secret_refs}
use hermes_agent_operator.Egress.Resolve.{resolve_credentials}
use hermes_agent_operator.Egress.Mint.{egress_proxy_token}
use hermes_agent_operator.Egress.Proxy.{token_of, build_egress_proxy}

abbrev pub proxy_config_key : String
proxy_config_key = "proxy.yaml"

-- `fmt.Errorf("…: %w", err)` of a call's error.
abbrev pub wrapped : {A : Type 0} → String → Result A → Result A
wrapped prefix (ok a) = ok a
wrapped prefix (err e) = err (wrap prefix e)

abbrev pub minted : String → Result String → Result String
minted env_name (ok raw) = ok (egress_proxy_token env_name raw)
minted env_name (err e) = err (wrap "minting egress proxy token" e)

-- The loop over the names of one credential, and that over the credentials.
abbrev pub put_names : String → List String → StringMap String → StringMap String
put_names token [] m = m
put_names token (n ∷ ns) m = put_names token ns (insert m n token)

abbrev pub put_tokens :
    StringMap String → List EgressCredential → StringMap String → StringMap String
put_tokens tokens [] m = m
put_tokens tokens (c ∷ cs) m =
    put_tokens tokens cs (put_names (token_of tokens c) (env_names c.secret) m)

abbrev pub record_egress_name : String → HermesAgentStatus → HermesAgentStatus
record_egress_name name status =
    let managed = status.managed_resources in
    record status { managed_resources = record managed { egress_secret = name } }

module _ {W : Type 0} (p : Platform W) (ha : HermesAgent) where
  abbrev pub egress_ns_name : NsName
  egress_ns_name = record { namespace = ha.namespace; name = get_egress_secret_name ha }

  unfoldable pub mint_egress_proxy_token : String → Call W String
  mint_egress_proxy_token env_name s =
      let (raw, s') = read_random p 16 s in (minted env_name raw, s')

  -- The token that is there, unless it is empty.
  pub token_for : Option Secret → EgressCredential → Exec W String
  token_for existing c =
      if is_empty (kept existing c.secret.name)
      then attempt (mint_egress_proxy_token c.secret.name)
      else pure (kept existing c.secret.name)

  pub mint_tokens :
      Option Secret → List EgressCredential → StringMap String → Exec W (StringMap String)
  mint_tokens existing [] m = pure m
  mint_tokens existing (c ∷ cs) m = do
    token ← token_for existing c
    mint_tokens existing cs (insert m c.secret.name token)

  abbrev pub egress_secret : StringMap String → Secret
  egress_secret m = record {
    meta = record {
      name = get_egress_secret_name ha;
      namespace = ha.namespace;
      labels = resource_labels ha;
      annotations = [];
      resource_version = "";
      creation_timestamp = 0;
      deletion_timestamp = none;
    };
    contents = m;
  }

  abbrev pub proxy_yaml : List EgressCredential → StringMap String → Result String
  proxy_yaml creds tokens =
      wrapped "marshaling iron-proxy config" (p.marshal_proxy (build_egress_proxy ha creds tokens))

  unfoldable pub build_egress_secret : List EgressCredential → Option Secret → Exec W Secret
  build_egress_secret creds existing = do
    tokens ← mint_tokens existing creds []
    yaml ← attempt (lift (proxy_yaml creds tokens))
    pure (egress_secret (put_tokens tokens creds ((proxy_config_key, yaml) ∷ [])))

  -- `fmt.Errorf` of a read that failed, or found nothing; else the keys.
  abbrev credential_keys : String → Result (Option Secret) → Result (List String)
  credential_keys name (ok (some secret)) = ok (keys secret.contents)
  credential_keys name (ok none) =
      err (errorf ("egress credentials Secret " ⧺ quoted name ⧺ " not found"))
  credential_keys name (err e) = err (wrap ("reading egress credentials Secret " ⧺ quoted name) e)

  unfoldable pub keys_of : String → Call W (List String)
  keys_of name s =
      let (r, s') = get_secret p (record { namespace = ha.namespace; name = name }) s in
      (credential_keys name r, s')

  pub read_keys : Exec W (List String)
  read_keys =
      let name = get_credentials_secret_name ha.spec.egress in
      if is_empty name then pure [] else attempt (keys_of name)

  pub resolve_egress_credentials : Exec W (List EgressCredential)
  resolve_egress_credentials = do
    attempt (lift (validate_egress_secret_refs ha))
    present ← read_keys
    attempt (lift (resolve_credentials ha.spec.egress present))

  -- Written only on a change.
  pub record_egress_secret : String → Exec W Outcome
  record_egress_secret name = do
    recorded ← gets (λ s. s.status.managed_resources.egress_secret)
    when (not (str_eq recorded name))
        (do modify_status (record_egress_name name); attempt (update_hermes_agent_status p ha))
    pure done

  pub remove_egress_secret : Option Secret → Exec W Outcome
  remove_egress_secret existing = do
    when (is_some existing) (attempt (delete_secret p egress_ns_name))
    record_egress_secret ""

  -- What is there keeps its metadata.
  pub write_egress_secret : Option Secret → Secret → Exec W (Unit {0})
  write_egress_secret none desired = attempt (create_secret p ha desired)
  write_egress_secret (some existing) desired =
      when (not (contents_equal existing.contents desired.contents))
        (attempt (update_secret p ha (record existing { contents = desired.contents })))

  pub refresh_egress_secret : Option Secret → Exec W Outcome
  refresh_egress_secret existing = do
    attempt (lift (validate_egress_ports ha))
    creds ← resolve_egress_credentials
    desired ← build_egress_secret creds existing
    write_egress_secret existing desired
    record_egress_secret (get_egress_secret_name ha)

  pub with_egress_secret : Option Secret → Exec W Outcome
  with_egress_secret existing =
      if not (egress_enabled ha.spec.egress)
      then remove_egress_secret existing
      else refresh_egress_secret existing

  pub egress_secret_body : Exec W Outcome
  egress_secret_body = do
    existing ← attempt (get_secret p egress_ns_name)
    with_egress_secret existing

  unfoldable pub reconcile_egress_secret : Handler W
  reconcile_egress_secret = deferred p ha "EgressSecretReconcileFailed" (finish egress_secret_body)

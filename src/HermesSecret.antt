-- ===== src/HermesSecret.antt =====
-- The agent's own Secret (internal/usecase/hermesagent_hermes_secret.go): the API server's key and the
-- webhook's secret, generated once and kept.
pub mod Kept
mod Examples
use hermes_agent_operator.Prelude.{
  ℕ, String, Bool, true, false, Option, none, some, List, [], ◌∷◌, not, ◌&&◌, ◌==◌, str_eq,
  is_empty, StringMap, lookup, insert, get_or, if_some, length, if◌then◌else◌,
}
use hermes_agent_operator.Objects.{NsName, Secret}
use hermes_agent_operator.Api.Hermes.{
  get_api_server, get_webhook, api_server_enabled, webhook_enabled,
}
use hermes_agent_operator.Api.Agent.{
  HermesAgent, HermesAgentStatus, get_hermes_name, resource_labels,
}
use hermes_agent_operator.Kube.Client.{Platform}
use hermes_agent_operator.Kube.Exec.{
  Outcome, Handler, Exec, pure, attempt, modify_status, finish, when, done, ◌>>=◌, ◌>>◌,
}
use hermes_agent_operator.Kube.Calls.{
  get_secret, create_secret, update_secret, update_hermes_agent_status, read_random,
}
use hermes_agent_operator.Conditions.{deferred}

abbrev pub api_server_key : String
api_server_key = "API_SERVER_KEY"

abbrev pub webhook_secret : String
webhook_secret = "WEBHOOK_SECRET"

-- `existing.Data[k]`, "" where there is none.
abbrev pub kept : Option Secret → String → String
kept none k = ""
kept (some o) k = get_or (lookup o.contents k) ""

-- `maps.EqualFunc(a, b, bytes.Equal)`, of maps whose keys are distinct.
unfoldable pub entries_in : StringMap String → StringMap String → Bool
entries_in [] b = true
entries_in ((k, v) ∷ a) b = if_some (lookup b k) (λ w. str_eq v w) false && entries_in a b

unfoldable pub contents_equal : StringMap String → StringMap String → Bool
unfolding entries_in
contents_equal a b = length a == length b && entries_in a b

module _ {W : Type 0} (p : Platform W) (ha : HermesAgent) where
  abbrev pub api_on : Bool
  api_on = api_server_enabled (get_api_server ha.spec.hermes)

  abbrev pub webhook_on : Bool
  webhook_on = webhook_enabled (get_webhook ha.spec.hermes)

  abbrev pub hermes_ns_name : NsName
  hermes_ns_name = record { namespace = ha.namespace; name = get_hermes_name ha }

  -- 32 random bytes, in hexadecimal.
  unfoldable pub mint : String → StringMap String → Exec W (StringMap String)
  mint k m = do raw ← attempt (read_random p 32); pure (insert m k raw)

  -- The key of one feature: left out when it is off, kept when it is there, else generated.
  unfoldable pub add_key :
      Bool → String → Option Secret → StringMap String → Exec W (StringMap String)
  add_key on k existing m =
      if on
      then (if is_empty (kept existing k) then mint k m else pure (insert m k (kept existing k)))
      else pure m

  abbrev pub hermes_secret : StringMap String → Secret
  hermes_secret m = record {
    meta = record {
      name = get_hermes_name ha;
      namespace = ha.namespace;
      labels = resource_labels ha;
      annotations = [];
      resource_version = "";
      creation_timestamp = 0;
      deletion_timestamp = none;
    };
    contents = m;
  }

  unfoldable pub build_hermes_secret : Option Secret → Exec W Secret
  build_hermes_secret existing = do
    m ← add_key api_on api_server_key existing []
    m' ← add_key webhook_on webhook_secret existing m
    pure (hermes_secret m')

  pub record_hermes_secret : HermesAgentStatus → HermesAgentStatus
  record_hermes_secret status =
      let managed = status.managed_resources in
      record status { managed_resources = record managed { hermes_secret = get_hermes_name ha } }

  pub write_hermes_secret : Option Secret → Secret → Exec W Outcome
  write_hermes_secret none desired = do
    attempt (create_secret p ha desired)
    modify_status record_hermes_secret
    attempt (update_hermes_agent_status p ha)
    pure done
  write_hermes_secret (some existing) desired = do
    when (not (contents_equal existing.contents desired.contents))
        (attempt (update_secret p ha (record existing { contents = desired.contents })))
    pure done

  pub hermes_secret_body : Exec W Outcome
  hermes_secret_body = do
    existing ← attempt (get_secret p hermes_ns_name)
    desired ← build_hermes_secret existing
    write_hermes_secret existing desired

  pub reconcile_hermes_secret : Handler W
  reconcile_hermes_secret = deferred p ha "HermesSecretReconcileFailed" (finish hermes_secret_body)

-- ===== src/SearxngSecret.antt =====
-- SearXNG's Secret (internal/usecase/hermesagent_searxng_secret.go).
pub mod Requests
use hermes_agent_operator.Prelude.{
  ℕ, String, Bool, true, false, Option, none, some, List, [], ◌∷◌, not, is_some, if◌then◌else◌,
}
use hermes_agent_operator.Objects.{NsName, Secret}
use hermes_agent_operator.Api.Agent.{
  HermesAgent, HermesAgentStatus, get_searxng_name, searxng_enabled, resource_labels,
}
use hermes_agent_operator.Kube.Client.{Platform}
use hermes_agent_operator.Kube.Exec.{
  Outcome, Handler, Exec, pure, attempt, modify_status, finish, when, done, ◌>>=◌, ◌>>◌,
}
use hermes_agent_operator.Kube.Calls.{
  get_secret, create_secret, delete_secret, update_hermes_agent_status, read_random,
}
use hermes_agent_operator.Conditions.{deferred}

abbrev pub record_searxng_secret : String → HermesAgentStatus → HermesAgentStatus
record_searxng_secret name status =
    let managed = status.managed_resources in
    record status { managed_resources = record managed { searxng_secret = name } }

-- The Secret, once the random bytes are read.
pub build_searxng_secret : HermesAgent → String → Secret
build_searxng_secret ha raw = record {
  meta = record {
    name = get_searxng_name ha;
    namespace = ha.namespace;
    labels = resource_labels ha;
    annotations = [];
    resource_version = "";
    creation_timestamp = 0;
    deletion_timestamp = none;
  };
  contents = ("SEARXNG_SECRET", raw) ∷ [];
}

module _ {W : Type 0} (p : Platform W) (ha : HermesAgent) where
  abbrev pub searxng_ns_name : NsName
  searxng_ns_name = record { namespace = ha.namespace; name = get_searxng_name ha }

  record_and_finish : String → Exec W Outcome
  record_and_finish name = do
    modify_status (record_searxng_secret name)
    attempt (update_hermes_agent_status p ha)
    pure done

  remove_searxng_secret : Option Secret → Exec W Outcome
  remove_searxng_secret existing = do
    when (is_some existing) (attempt (delete_secret p searxng_ns_name))
    record_and_finish ""

  -- Never updated.
  keep_searxng_secret : Option Secret → Exec W Outcome
  keep_searxng_secret (some _) = pure done
  keep_searxng_secret none = do
    raw ← attempt (read_random p 32)
    attempt (create_secret p ha (build_searxng_secret ha raw))
    record_and_finish (get_searxng_name ha)

  with_secret : Option Secret → Exec W Outcome
  with_secret existing =
      if not (searxng_enabled ha.spec.searxng)
      then remove_searxng_secret existing
      else keep_searxng_secret existing

  searxng_secret_body : Exec W Outcome
  searxng_secret_body = do existing ← attempt (get_secret p searxng_ns_name); with_secret existing

  pub reconcile_searxng_secret : Handler W
  reconcile_searxng_secret =
      deferred p ha "SearXNGSecretReconcileFailed" (finish searxng_secret_body)

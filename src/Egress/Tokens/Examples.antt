-- ===== src/Egress/Tokens/Examples.antt =====
-- The theorems on the tokens, at concrete credentials and Secrets.
use hermes_agent_operator.Prelude.{none, some, List, [], ◌∷◌, ◌≡◌, ◌↔◌, refl, true, contains, keys}
use hermes_agent_operator.Objects.{Secret}
use hermes_agent_operator.Api.Egress.{EgressCredential}
use hermes_agent_operator.Api.Agent.{HermesAgent}
use hermes_agent_operator.Kube.Client.{ok}
use hermes_agent_operator.Kube.Calls.{read_random}
use hermes_agent_operator.Kube.Exec.{next, pure, attempt, lift, ◌>>=◌}
use hermes_agent_operator.Kube.Samples.{
  cluster, everything, start, sample_agent, meta_of, bare_hermes,
}
use hermes_agent_operator.HermesSecret.{contents_equal}
use hermes_agent_operator.Egress.Claims.{check_credential_claims}
use hermes_agent_operator.Egress.Claims.Laws.{check_credential_claims-IsDistinct}
use hermes_agent_operator.Egress.Refs.{
  validate_egress_secret_refs, IsApart, validate_egress_secret_refs_iff,
}
use hermes_agent_operator.Egress.Mint.{egress_proxy_token}
use hermes_agent_operator.Egress.Tokens.{
  token_for, mint_tokens, mint_egress_proxy_token, egress_secret, build_egress_secret,
}
use hermes_agent_operator.Egress.Tokens.Agrees.{Agrees, build_egress_secret-Agrees}
use hermes_agent_operator.Egress.Tokens.Steady.{build_egress_secret-again}
use hermes_agent_operator.Workload.Inputs.{StatefulSetInputs}
use hermes_agent_operator.Kube.Client.{quoted}
use hermes_agent_operator.Pod.{build_stateful_set}
use hermes_agent_operator.Pod.Parts.{literal}
use hermes_agent_operator.Pod.Tokens.{agent_env, from_secret, agent_env-credential}

abbrev agent : HermesAgent
agent = sample_agent none none

abbrev gemini : EgressCredential
gemini = record {
  secret = record {
    name = "GEMINI_API_KEY";
    hosts = "generativelanguage.googleapis.com" ∷ [];
    match_headers = "x-goog-api-key" ∷ [];
    aliases = "GOOGLE_API_KEY" ∷ [];
  };
  source_key = "GOOGLE_API_KEY";
}

abbrev groq : EgressCredential
groq = record {
  secret = record {
    name = "GROQ_API_KEY";
    hosts = "api.groq.com" ∷ [];
    match_headers = [];
    aliases = [];
  };
  source_key = "GROQ_API_KEY";
}

abbrev both : List EgressCredential
both = gemini ∷ groq ∷ []

both_pass : check_credential_claims both ≡ ok tt
unfolding check_credential_claims
both_pass = refl

-- With a token for the first.
abbrev before : Secret
before = record { meta = meta_of "hermes-egress"; contents = ("GEMINI_API_KEY", "gemini-1") ∷ [] }

abbrev after : Secret
after = egress_secret (cluster everything) agent (
    ("proxy.yaml", "proxy: {}")
    ∷ ("GEMINI_API_KEY", "gemini-1")
    ∷ ("GOOGLE_API_KEY", "gemini-1")
    ∷ ("GROQ_API_KEY", "groq-00")
    ∷ [])

is_built : (build_egress_secret (cluster everything) agent both (some before) start).0 ≡ next after
unfolding build_egress_secret mint_tokens token_for mint_egress_proxy_token read_random
    egress_proxy_token lift attempt pure ◌>>=◌
is_built = refl

build_egress_secret-Agrees_example :
    Agrees (cluster everything) agent both (some before) after.contents
build_egress_secret-Agrees_example =
    build_egress_secret-Agrees (cluster everything) agent both (some before) start
      (check_credential_claims-IsDistinct both both_pass).0 refl is_built

build_egress_secret-again_example :
    (build_egress_secret (cluster everything) agent both (some after) start ≡ (next after, start))
    × (contents_equal after.contents after.contents ≡ true)
build_egress_secret-again_example =
    build_egress_secret-again (cluster everything) agent both (some before) start
      (check_credential_claims-IsDistinct both both_pass).0 is_built after refl start

-- With Secrets of the user's for the credentials and for the CA, the latter named like the managed one.
abbrev agent_with_refs : HermesAgent
agent_with_refs =
    let spec = agent.spec in
    record agent {
      spec = record spec {
        egress = some (record {
          enabled = true;
          image = "";
          resources = none;
          env = [];
          credentials = some (record { secret_ref = record { name = "keys" } });
          ca = some (record { secret_ref = some (record { name = "hermes-egress-ca" }) });
          config = none;
        });
      };
    }

validate_egress_secret_refs_iff_example :
    (validate_egress_secret_refs agent_with_refs ≡ ok tt) ↔ IsApart agent_with_refs
validate_egress_secret_refs_iff_example = validate_egress_secret_refs_iff agent_with_refs

abbrev inputs : StatefulSetInputs
inputs = record {
  config_hash = "c";
  egress_token_names = "GEMINI_API_KEY" ∷ "GOOGLE_API_KEY" ∷ "GROQ_API_KEY" ∷ [];
  egress_hash = "e";
}

-- A real key among its own env vars.
abbrev agent_with_key : HermesAgent
agent_with_key =
    let spec = agent.spec in
    record agent {
      spec = record spec {
        hermes = some (record bare_hermes { env = literal "GOOGLE_API_KEY" "real" ∷ [] });
      };
    }

key_is_built :
    (build_egress_secret (cluster everything) agent_with_key both (some before) start).0
    ≡ next after
unfolding build_egress_secret mint_tokens token_for mint_egress_proxy_token read_random
    egress_proxy_token lift attempt pure ◌>>=◌
key_is_built = refl

agent_env-credential_example :
    (agent_env (build_stateful_set quoted agent_with_key inputs) "GOOGLE_API_KEY"
      ≡ some (from_secret "hermes-egress" "GOOGLE_API_KEY"))
    × ((after.meta.namespace ≡ "ns") × (contains (keys after.contents) "GOOGLE_API_KEY" ≡ true))
agent_env-credential_example =
    agent_env-credential (cluster everything) agent_with_key both (some before) start inputs refl
      (refl, (refl, (refl, tt))) key_is_built refl "GOOGLE_API_KEY" refl

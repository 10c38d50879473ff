-- ===== src/Egress/Examples.antt =====
-- The theorems on the proxy, at concrete credentials, Secrets and agents.
use hermes_agent_operator.Prelude.{ℕ, String, true, none, List, [], ◌∷◌, All, ◌≡◌, ◌↔◌, refl}
use hermes_agent_operator.Api.Egress.{EgressCredential}
use hermes_agent_operator.Kube.Client.{ok}
use hermes_agent_operator.Kube.Samples.{
  cluster, everything, cluster-OnlyOwns, start, sample_agent, sample_secret,
}
use hermes_agent_operator.Egress.Hosts.{lower_codes, hosts_overlap, MatchesHost, hosts_overlap_iff}
use hermes_agent_operator.Egress.Claims.{check_credential_claims}
use hermes_agent_operator.Egress.Claims.Laws.{
  IsDistinct, IsDisjoint, all_names, check_credential_claims-IsDistinct,
}
use hermes_agent_operator.Egress.Resolve.{resolve_credentials}
use hermes_agent_operator.Egress.Resolve.Laws.{IsResolved, resolve_credentials-IsResolved}
use hermes_agent_operator.Egress.Ports.{
  validate_egress_ports, Listeners, IsClear, validate_egress_ports_iff,
}
use hermes_agent_operator.Egress.Ca.{validate_egress_ca_secret, reconcile_egress_ca}
use hermes_agent_operator.Egress.Ca.Usable.{IsUsable, validate_egress_ca_secret_iff}
use hermes_agent_operator.Egress.Ca.Requests.{IsCaWrite, reconcile_egress_ca-writes}

hosts_overlap_iff_example : hosts_overlap "*.openrouter.ai" "API.openrouter.ai" ≡ true ↔ (
    (host : List ℕ) × MatchesHost (lower_codes "*.openrouter.ai") host
    × MatchesHost (lower_codes "API.openrouter.ai") host)
hosts_overlap_iff_example = hosts_overlap_iff "*.openrouter.ai" "API.openrouter.ai"

abbrev plain : String → String → EgressCredential
plain name host = record {
  secret = record { name = name; hosts = host ∷ []; match_headers = []; aliases = [] };
  source_key = name;
}

abbrev two : List EgressCredential
two = plain "A_API_KEY" "a.example" ∷ plain "B_API_KEY" "*.b.example" ∷ []

two_pass : check_credential_claims two ≡ ok tt
unfolding check_credential_claims
two_pass = refl

check_credential_claims-IsDistinct_example : IsDistinct (all_names two) × IsDisjoint two
check_credential_claims-IsDistinct_example = check_credential_claims-IsDistinct two two_pass

abbrev open_ai : List EgressCredential
open_ai = plain "OPENAI_API_KEY" "api.openai.com" ∷ []

open_ai_resolves : resolve_credentials none ("OPENAI_API_KEY" ∷ []) ≡ ok open_ai
unfolding resolve_credentials
open_ai_resolves = refl

resolve_credentials-IsResolved_example : IsResolved none ("OPENAI_API_KEY" ∷ []) open_ai
resolve_credentials-IsResolved_example =
    resolve_credentials-IsResolved none ("OPENAI_API_KEY" ∷ []) open_ai_resolves

validate_egress_ports_iff_example :
    (validate_egress_ports (sample_agent none none) ≡ ok tt)
    ↔ Listeners (sample_agent none none) (IsClear (sample_agent none none))
validate_egress_ports_iff_example = validate_egress_ports_iff (sample_agent none none) refl

validate_egress_ca_secret_iff_example :
    (validate_egress_ca_secret (cluster everything) "my-ca" sample_secret.contents ≡ ok tt)
    ↔ IsUsable (cluster everything) sample_secret.contents
validate_egress_ca_secret_iff_example =
    validate_egress_ca_secret_iff (cluster everything) "my-ca" sample_secret.contents

reconcile_egress_ca-writes_example :
    All
      (IsCaWrite (sample_agent none none))
      (reconcile_egress_ca (cluster everything) (sample_agent none none) start).1.log
reconcile_egress_ca-writes_example =
    reconcile_egress_ca-writes (cluster everything) (sample_agent none none)
      (cluster-OnlyOwns everything) start tt

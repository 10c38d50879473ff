-- ===== src/Egress/Resolve.antt =====
-- The credentials that the proxy swaps (ResolveCredentials, api/v1alpha1/hermesagent_egress.go).
pub mod Laws
use hermes_agent_operator.Prelude.{
  String, ◌⧺◌, Bool, true, false, Option, none, some, List, [], ◌∷◌, ◌++◌, ◌&&◌, ◌||◌, not,
  contains, lookup, insert, StringMap, str_eq, is_empty, if_some, if◌then◌else◌,
}
use hermes_agent_operator.Api.Egress.{
  Egress, EgressSecret, EgressCredential, env_names, get_extra_secrets,
}
use hermes_agent_operator.Kube.Client.{Result, ok, err, on_ok, errorf, quoted}
use hermes_agent_operator.Egress.Claims.{check_credential_claims}

abbrev provider : String → List String → EgressSecret
provider name hosts = record { name = name; hosts = hosts; match_headers = []; aliases = [] }

-- The bundled providers, in hermes-agent's order.
pub egress_providers : List EgressSecret
egress_providers =
    provider "OPENROUTER_API_KEY" ("openrouter.ai" ∷ "*.openrouter.ai" ∷ [])
    ∷ provider "OPENAI_API_KEY" ("api.openai.com" ∷ [])
    ∷ provider "GROQ_API_KEY" ("api.groq.com" ∷ [])
    ∷ provider "TOGETHER_API_KEY" ("api.together.xyz" ∷ [])
    ∷ provider "DEEPSEEK_API_KEY" ("api.deepseek.com" ∷ [])
    ∷ provider "MISTRAL_API_KEY" ("api.mistral.ai" ∷ [])
    ∷ provider "XAI_API_KEY" ("api.x.ai" ∷ [])
    ∷ provider "NOUS_API_KEY" ("inference.nousresearch.com" ∷ [])
    ∷ (record {
      name = "ANTHROPIC_API_KEY";
      hosts = "api.anthropic.com" ∷ [];
      match_headers = "x-api-key" ∷ "Authorization" ∷ [];
      aliases = [];
    })
    ∷ (record {
      name = "AZURE_OPENAI_API_KEY";
      hosts =
          "*.openai.azure.com" ∷ "*.cognitiveservices.azure.com" ∷ "*.services.ai.azure.com" ∷ [];
      match_headers = "api-key" ∷ "Authorization" ∷ [];
      aliases = [];
    })
    ∷ (record {
      name = "GEMINI_API_KEY";
      hosts = "generativelanguage.googleapis.com" ∷ [];
      match_headers = "x-goog-api-key" ∷ [];
      aliases = "GOOGLE_API_KEY" ∷ [];
    })
    ∷ []

-- The first of the names that is a key, or "".
pub first_key : List String → List String → String
first_key [] present = ""
first_key (k ∷ ks) present = if contains present k then k else first_key ks present

abbrev pub source_key : List String → EgressSecret → String
source_key present s = first_key (env_names s) present

-- `slices.IndexFunc` and the assignment, or the append: an entry replaces the first of its name.
pub put_spec : List EgressSecret → EgressSecret → List EgressSecret
put_spec [] s = s ∷ []
put_spec (p ∷ ps) s = if str_eq p.name s.name then s ∷ ps else p ∷ put_spec ps s

pub merge_specs : List EgressSecret → List EgressSecret → List EgressSecret
unfolding put_spec
merge_specs specs [] = specs
merge_specs specs (s ∷ extra) = merge_specs (put_spec specs s) extra

abbrev pub is_named : List EgressSecret → String → Bool
is_named [] name = false
is_named (x ∷ xs) name = str_eq x.name name || is_named xs name

abbrev missing : String → String
missing name =
    "extraSecrets " ⧺ quoted name ⧺ ": neither it nor an alias is a key of the credentials Secret"

abbrev credential : String → EgressSecret → EgressCredential
credential k s = record { secret = s; source_key = k }

-- In front of what the rest of the loop collects.
abbrev pub put_first :
    EgressCredential → Result (List EgressCredential) → Result (List EgressCredential)
put_first c (ok cs) = ok (c ∷ cs)
put_first c (err e) = err e

-- The loop that collects the credentials.
pub collect : List String → List EgressSecret → List EgressSecret → Result (List EgressCredential)
unfolding first_key
collect present extra [] = ok []
collect present extra (s ∷ specs) =
    let rest = collect present extra specs in
    let k = source_key present s in
    if is_empty k
    then (if is_named extra s.name then err (errorf (missing s.name)) else rest)
    else put_first (credential k s) rest

-- `ResolveCredentials`.
unfoldable pub resolve_credentials : Option Egress → List String → Result (List EgressCredential)
unfolding merge_specs collect egress_providers check_credential_claims
resolve_credentials e present =
    let extra = get_extra_secrets e in
    on_ok (collect present extra (merge_specs egress_providers extra))
      λ creds. on_ok (check_credential_claims creds) λ _. ok creds

-- ===== src/Pod/Tokens.antt =====
-- What the agent's environment has for the env vars of the credentials.
use hermes_agent_operator.Prelude.{
  String, Bool, true, false, Option, none, some, List, [], ◌∷◌, ◌++◌, ◌≡◌, ◌∙◌, ap, sym, map, refl,
  str_eq, contains, Bool-cases, inl, inr, filter, keys, is_some, and_then, All, arith, eq_iff,
  if◌then◌else◌,
}
use hermes_agent_operator.PodTemplate.{EnvVar, secret_key_ref}
use hermes_agent_operator.Objects.{Secret, StatefulSet}
use hermes_agent_operator.Api.Egress.{EgressCredential, egress_enabled}
use hermes_agent_operator.Api.Agent.{HermesAgent, get_egress_secret_name}
use hermes_agent_operator.Kube.Client.{Platform}
use hermes_agent_operator.Kube.Exec.{State, next, pure, attempt, lift}
use hermes_agent_operator.Kube.Bound.{next_injective, bound}
use hermes_agent_operator.Egress.Claims.Laws.{all_names}
use hermes_agent_operator.Egress.Tokens.{mint_tokens, proxy_yaml, build_egress_secret}
use hermes_agent_operator.Workload.Inputs.{StatefulSetInputs, is_token_key, hashed_keys}
use hermes_agent_operator.Workload.TokenNames.{token_names-built, contains-token_names}
use hermes_agent_operator.Pod.{build_stateful_set}
use hermes_agent_operator.Pod.Parts.{hermes_container_name}
use hermes_agent_operator.Pod.Egress.{token_env}
use hermes_agent_operator.Pod.Found.{
  find_container, containers, with_urls, with_tokens_if, find-build_stateful_set,
}

-- Of several env vars with one name, a container gets the last.
abbrev pub last_env : List EnvVar → String → Option EnvVar
last_env [] name = none
last_env (v ∷ vs) name =
    let rest = last_env vs name in
    if is_some rest then rest else if str_eq v.name name then some v else none

-- What the agent's container gets for a name.
abbrev pub agent_env : StatefulSet → String → Option EnvVar
agent_env sts name =
    and_then (find_container hermes_container_name (containers sts)) λ c. last_env c.env name

last_env-append :
    (xs ys : List EnvVar) (name : String) (v : EnvVar)
    → last_env ys name ≡ some v
    → last_env (xs ++ ys) name ≡ some v
last_env-append [] ys name v e = e
last_env-append (x ∷ xs) ys name v e = ground (arith, last_env-append xs ys name v e)

last_env-missing :
    (ha : HermesAgent) (names : List String) (name : String)
    → contains names name ≡ false
    → last_env (map (token_env ha) names) name ≡ none
last_env-missing ha [] name k = refl
last_env-missing ha (n ∷ names) name k = ground (arith, last_env-missing ha names name)

last_env-tokens :
    (ha : HermesAgent) (names : List String) (name : String)
    → contains names name ≡ true
    → last_env (map (token_env ha) names) name ≡ some (token_env ha name)
last_env-tokens ha [] name k = ground arith
last_env-tokens ha (n ∷ names) name k = elim (Bool-cases (contains names name)) [
  | inl there ↦ ground (arith, last_env-tokens ha names name there)
  | inr missing ↦
      let same : str_eq n name ≡ true = ground arith in
      rw (last_env-missing ha names name missing)
        (rw same (ap (λ (m : String). some (token_env ha m)) ((eq_iff n name).0 same)))
]

whole_agent-token :
    (ha : HermesAgent) (names : List String) (name : String) (b : Bool)
    → b ≡ true
    → contains names name ≡ true
    → last_env (with_tokens_if b ha names (with_urls ha)).env name ≡ some (token_env ha name)
whole_agent-token ha names name true e k =
    last_env-append (with_urls ha).env (map (token_env ha) names) name (token_env ha name)
      (last_env-tokens ha names name k)
whole_agent-token ha names name false e k = ground arith

-- With egress on, the agent's container gets the token of the egress Secret for each of the inputs'
-- names, whatever the spec's own env vars say.
agent_env-token :
    (q : String → String) (ha : HermesAgent) (inputs : StatefulSetInputs) (name : String)
    → egress_enabled ha.spec.egress ≡ true
    → contains inputs.egress_token_names name ≡ true
    → agent_env (build_stateful_set q ha inputs) name ≡ some (token_env ha name)
agent_env-token q ha inputs name e k =
    ap (λ o. and_then o λ c. last_env c.env name) (find-build_stateful_set q ha inputs)
    ∙ whole_agent-token ha inputs.egress_token_names name (egress_enabled ha.spec.egress) e k

-- The value of an env var is that of a key of a Secret, and nothing else.
abbrev pub from_secret : String → String → EnvVar
from_secret secret key = record {
  name = key;
  value = "";
  value_from = some (secret_key_ref secret key);
}

module _ {W : Type 0} (p : Platform W) (ha : HermesAgent) where
  built_meta :
      (creds : List EgressCredential) (existing : Option Secret) (s : State W) {built : Secret}
      → (build_egress_secret p ha creds existing s).0 ≡ next built
      → (get_egress_secret_name ha ≡ built.meta.name) × (ha.namespace ≡ built.meta.namespace)
  unfolding build_egress_secret pure
  built_meta creds existing s {built} h =
      let (tokens, s1, e1, h1) = bound (mint_tokens p ha existing creds []) _ s h in
      let (yaml, s2, e2, h2) = bound (attempt (lift (proxy_yaml p ha creds tokens))) _ s1 h1 in
      (
        ap (λ (o : Secret). o.meta.name) (next_injective h2),
        ap (λ (o : Secret). o.meta.namespace) (next_injective h2),
      )

  -- With egress on, where the egress reconciler built a Secret for the credentials, each name of which is
  -- the name of an env var, and the StatefulSet is built for the names of that Secret: for each name of a
  -- credential, aliases included, the last entry of the environment of the container that has the agent's
  -- name has no value of its own and refers to the key of that name in a Secret with the name of the one
  -- that was built, whatever env vars and containers the spec adds; and the one that was built is in the
  -- namespace of the StatefulSet and has the key.
  pub agent_env-credential :
      (creds : List EgressCredential) (existing : Option Secret) (s : State W) {built : Secret}
      (inputs : StatefulSetInputs)
      → egress_enabled ha.spec.egress ≡ true
      → All (λ n. is_token_key n ≡ true) (all_names creds)
      → (build_egress_secret p ha creds existing s).0 ≡ next built
      → inputs.egress_token_names ≡ filter is_token_key (hashed_keys none built.contents)
      → (n : String) → contains (all_names creds) n ≡ true
      → (agent_env (build_stateful_set p.go_quote ha inputs) n
          ≡ some (from_secret built.meta.name n))
        × ((built.meta.namespace ≡ ha.namespace) × (contains (keys built.contents) n ≡ true))
  agent_env-credential creds existing s {built} inputs on names e same n k =
      let there : contains (filter is_token_key (hashed_keys none built.contents)) n ≡ true =
        token_names-built p ha creds existing s names e n ∙ k in
      let (name, namespace) = built_meta creds existing s e in
      (
        agent_env-token p.go_quote ha inputs n on (ap (λ xs. contains xs n) same ∙ there)
            ∙ ap (λ (m : String). some (from_secret m n)) name,
        (sym namespace, contains-token_names built.contents n there),
      )

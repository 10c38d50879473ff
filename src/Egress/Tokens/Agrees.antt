-- ===== src/Egress/Tokens/Agrees.antt =====
-- The tokens in the egress Secret against those in the proxy's configuration
-- (buildEgressSecret, internal/usecase/hermesagent_egress_secret.go).
use hermes_agent_operator.Prelude.{
  String, false, Option, some, List, [], ◌∷◌, ◌++◌, map, ◌≡◌, refl, sym, ap, subst, ◌∙◌, All,
  All-imp, StringMap, lookup, contains, get_or, is_empty,
}
use mathlib.Core.List.{append-nil}
use hermes_agent_operator.Objects.{Secret}
use hermes_agent_operator.Api.Egress.{EgressCredential, env_names}
use hermes_agent_operator.Api.Agent.{HermesAgent}
use hermes_agent_operator.IronProxy.{
  IronProxySecret, IronProxyTransform, allowlist, secrets, IronProxyConfig,
}
use hermes_agent_operator.Kube.Client.{Result, ok, err, Platform}
use hermes_agent_operator.Kube.Exec.{State, next, pure, attempt, lift}
use hermes_agent_operator.Kube.Bound.{next_injective, bound, attempted}
use hermes_agent_operator.HermesSecret.{kept}
use hermes_agent_operator.Egress.Claims.Laws.{IsDistinct, all_names}
use hermes_agent_operator.Egress.Proxy.{
  token_of, proxy_secret, proxy_transforms, build_egress_proxy,
}
use hermes_agent_operator.Egress.Tokens.{
  proxy_config_key, wrapped, put_tokens, mint_tokens, proxy_yaml, build_egress_secret,
}
use hermes_agent_operator.Egress.Tokens.Minted.{mint_tokens-Minted}
use hermes_agent_operator.Egress.Tokens.Entries.{
  Avoids-contains, HasToken, put_tokens-other, put_tokens-HasToken,
}

-- What a configuration swaps: for each secret, the proxy's env var with the real value, and the token that
-- the proxy puts it in place of.
abbrev pub swap_of : IronProxySecret → String × String
swap_of s = (s.source.var, s.replace.proxy_value)

abbrev pub swaps_in : List IronProxyTransform → List (String × String)
swaps_in [] = []
swaps_in (allowlist domains ∷ ts) = swaps_in ts
swaps_in (secrets ss ∷ ts) = map swap_of ss ++ swaps_in ts

-- What the agent holds for a credential.
abbrev pub agent_swap : StringMap String → EgressCredential → String × String
agent_swap contents c = (c.source_key, get_or (lookup contents c.secret.name) "")

abbrev pub IsKeptToken : Option Secret → StringMap String → EgressCredential → Type 0
IsKeptToken existing contents c =
    is_empty (kept existing c.secret.name) ≡ false
    → lookup contents c.secret.name ≡ some (kept existing c.secret.name)

-- The aliases of a credential have what its name has.
abbrev pub SharesToken : StringMap String → EgressCredential → Type 0
SharesToken contents c =
    All (λ n. lookup contents n ≡ lookup contents c.secret.name) (env_names c.secret)

pub record Agrees {W : Type 0} (p : Platform W) (ha : HermesAgent) (creds : List EgressCredential)
    (existing : Option Secret) (contents : StringMap String) : Type 0 where
  pub config : IronProxyConfig
  pub yaml : String
  pub rendered : p.marshal_proxy config ≡ ok yaml
  pub held : lookup contents proxy_config_key ≡ some yaml
  pub swaps : swaps_in config.transforms ≡ map (agent_swap contents) creds
  pub shared : All (SharesToken contents) creds
  pub kept_tokens : All (IsKeptToken existing contents) creds

wrapped_ok : {A : Type 0} (t : String) (r : Result A) {a : A} → wrapped t r ≡ ok a → r ≡ ok a
wrapped_ok t (ok b) h = h
wrapped_ok t (err e) h = cc

swaps-map :
    (tokens : StringMap String) (creds : List EgressCredential)
    → map swap_of (map (proxy_secret tokens) creds)
      ≡ map (λ c. (c.source_key, token_of tokens c)) creds
swaps-map tokens [] = refl
swaps-map tokens (c ∷ cs) = rw (swaps-map tokens cs)

swaps_in-proxy_transforms :
    (domains : List String) (tokens : StringMap String) (creds : List EgressCredential)
    → swaps_in (proxy_transforms domains (map (proxy_secret tokens) creds))
      ≡ map (λ c. (c.source_key, token_of tokens c)) creds
swaps_in-proxy_transforms domains tokens [] = refl
swaps_in-proxy_transforms domains tokens (c ∷ cs) =
    append-nil (map swap_of (map (proxy_secret tokens) (c ∷ cs))) ∙ swaps-map tokens (c ∷ cs)

-- Where each credential finds its token in the contents, these are what the agent holds.
agent_swap-map :
    (contents tokens : StringMap String) (creds : List EgressCredential)
    → All (HasToken contents tokens) creds
    → map (λ c. (c.source_key, token_of tokens c)) creds ≡ map (agent_swap contents) creds
agent_swap-map contents tokens [] h = refl
agent_swap-map contents tokens (c ∷ cs) h =
    rw (agent_swap-map contents tokens cs h.1) (rw (h.0.0) refl)

HasToken-SharesToken :
    (contents tokens : StringMap String) (creds : List EgressCredential)
    → All (HasToken contents tokens) creds
    → All (SharesToken contents) creds
HasToken-SharesToken contents tokens creds h =
    All-imp (HasToken contents tokens) (SharesToken contents) creds
      (λ c k.
        All-imp (λ n. lookup contents n ≡ some (token_of tokens c))
          (λ n. lookup contents n ≡ lookup contents c.secret.name) (env_names c.secret)
          (λ n e. e ∙ sym k.0) k)
      h

kept_from :
    (contents tokens : StringMap String) (existing : Option Secret) (creds : List EgressCredential)
    → All (HasToken contents tokens) creds
    → All
        (λ c.
          is_empty (kept existing c.secret.name) ≡ false
          → token_of tokens c ≡ kept existing c.secret.name)
        creds
    → All (IsKeptToken existing contents) creds
kept_from contents tokens existing [] h k = tt
kept_from contents tokens existing (c ∷ cs) h k =
    (λ q. h.0.0 ∙ ap some (k.0 q), kept_from contents tokens existing cs h.1 k.1)

module _ {W : Type 0} (p : Platform W) (ha : HermesAgent) where
  -- Where no two credentials share a name, and none is named like the configuration's key: the Secret
  -- that is built holds a configuration as it is marshalled; the proxy swaps, for each credential and in
  -- their order, exactly the token that the Secret has under the credential's name for the value at its
  -- source key; every alias has the token of the name; and a token that the existing Secret has under the
  -- name, and that is not empty, is still there.
  pub build_egress_secret-Agrees :
      (creds : List EgressCredential) (existing : Option Secret) (s : State W) {desired : Secret}
      → IsDistinct (all_names creds)
      → contains (all_names creds) proxy_config_key ≡ false
      → (build_egress_secret p ha creds existing s).0 ≡ next desired
      → Agrees p ha creds existing desired.contents
  unfolding build_egress_secret build_egress_proxy lift pure
  build_egress_secret-Agrees creds existing s {desired} d apart h =
      let (tokens, s1, e1, h1) = bound (mint_tokens p ha existing creds []) _ s h in
      let (yaml, s2, e2, h2) = bound (attempt (lift (proxy_yaml p ha creds tokens))) _ s1 h1 in
      let tokens_are = mint_tokens-Minted p ha existing creds [] s d e1 in
      let start = (proxy_config_key, yaml) ∷ [] in
      let held = put_tokens-HasToken tokens creds start d in
      subst (λ (o : Secret). Agrees p ha creds existing o.contents) (next_injective h2)
        (record {
          config = build_egress_proxy ha creds tokens;
          yaml = yaml;
          rendered = wrapped_ok _ _ (attempted (lift (proxy_yaml p ha creds tokens)) s1 e2);
          held =
              put_tokens-other tokens creds start proxy_config_key
                (Avoids-contains proxy_config_key (all_names creds) apart);
          swaps =
              swaps_in-proxy_transforms _ tokens creds
              ∙ agent_swap-map (put_tokens tokens creds start) tokens creds held;
          shared = HasToken-SharesToken _ tokens creds held;
          kept_tokens = kept_from _ tokens existing creds held tokens_are.same;
        })

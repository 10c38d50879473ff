-- ===== src/Egress/Tokens/Steady.antt =====
-- A second run over a Secret that holds what the first has built
-- (internal/usecase/hermesagent_egress_secret.go).
use hermes_agent_operator.Prelude.{
  String, true, Option, some, List, [], ◌∷◌, ◌≡◌, refl, sym, ap, subst, ◌∙◌, All, StringMap, insert,
  keys,
}
use hermes_agent_operator.Objects.{Secret}
use hermes_agent_operator.Api.Egress.{EgressCredential, env_names}
use hermes_agent_operator.Api.Agent.{HermesAgent}
use hermes_agent_operator.Kube.Client.{Result, ok, Platform}
use hermes_agent_operator.Kube.Exec.{State, next, pure, attempt, lift}
use hermes_agent_operator.Kube.Bound.{next_injective, bound, attempted}
use hermes_agent_operator.HermesSecret.{kept, contents_equal}
use hermes_agent_operator.Managed.Lists.{Distinct, Distinct-insert, contents_equal_refl}
use hermes_agent_operator.Egress.Claims.Laws.{IsDistinct, all_names}
use hermes_agent_operator.Egress.Proxy.{token_of}
use hermes_agent_operator.Egress.Tokens.{
  proxy_config_key, put_names, put_tokens, mint_tokens, egress_secret, proxy_yaml,
  build_egress_secret,
}
use hermes_agent_operator.Egress.Tokens.Entries.{HasToken, put_tokens-HasToken}
use hermes_agent_operator.Egress.Tokens.Minted.{again_step, mint_tokens-again}

Distinct-put_names :
    (t : String) (ns : List String) (m : StringMap String)
    → Distinct (keys m)
    → Distinct (keys (put_names t ns m))
Distinct-put_names t [] m d = d
Distinct-put_names t (n ∷ ns) m d = Distinct-put_names t ns (insert m n t) (Distinct-insert m n t d)

Distinct-put_tokens :
    (tokens : StringMap String) (creds : List EgressCredential) (m : StringMap String)
    → Distinct (keys m)
    → Distinct (keys (put_tokens tokens creds m))
Distinct-put_tokens tokens [] m d = d
Distinct-put_tokens tokens (c ∷ cs) m d =
    Distinct-put_tokens tokens cs (put_names (token_of tokens c) (env_names c.secret) m)
      (Distinct-put_names (token_of tokens c) (env_names c.secret) m d)

-- The Secret has, under the name of each credential, its token.
held_as :
    (o : Secret) (contents tokens : StringMap String) (creds : List EgressCredential)
    → o.contents ≡ contents
    → All (HasToken contents tokens) creds
    → All (λ c. kept (some o) c.secret.name ≡ token_of tokens c) creds
held_as o contents tokens [] e h = tt
held_as o contents tokens (c ∷ cs) e h =
    (rw e (rw (h.0.0) refl), held_as o contents tokens cs e h.1)

module _ {W : Type 0} (p : Platform W) (ha : HermesAgent) where
  lifted :
      {A : Type 0} (r : Result A) (t : State W) {a : A}
      → r ≡ ok a
      → attempt (lift r) t ≡ (next a, t)
  unfolding attempt lift
  lifted r t h = rw h refl

  lift_ok : {A : Type 0} (r : Result A) (t : State W) {a : A} → (lift r t).0 ≡ ok a → r ≡ ok a
  unfolding lift
  lift_ok r t h = h

  rebuilt :
      (creds : List EgressCredential) (o : Secret) (t : State W) {tokens : StringMap String}
      {yaml : String}
      → mint_tokens p ha (some o) creds [] t ≡ (next tokens, t)
      → proxy_yaml p ha creds tokens ≡ ok yaml
      → build_egress_secret p ha creds (some o) t
        ≡ (next (egress_secret p ha (put_tokens tokens creds ((proxy_config_key, yaml) ∷ []))), t)
  unfolding build_egress_secret pure
  rebuilt creds o t {tokens} {yaml} e h =
      again_step (mint_tokens p ha (some o) creds []) _ tokens t e
      ∙ again_step (attempt (lift (proxy_yaml p ha creds tokens))) _ yaml t (lifted _ t h)

  -- Where no two credentials share a name: from a Secret that holds what was built, be it from an
  -- existing one or not, and with whatever metadata, the same is built again for the same credentials, at
  -- any later state, and without a call that changes it; and the comparison finds nothing to update.
  pub build_egress_secret-again :
      (creds : List EgressCredential) (existing : Option Secret) (s : State W) {desired : Secret}
      → IsDistinct (all_names creds)
      → (build_egress_secret p ha creds existing s).0 ≡ next desired
      → (o : Secret) → o.contents ≡ desired.contents
      → (t : State W)
      → (build_egress_secret p ha creds (some o) t ≡ (next desired, t))
        × (contents_equal o.contents desired.contents ≡ true)
  unfolding build_egress_secret pure
  build_egress_secret-again creds existing s {desired} d h o same t =
      let (tokens, s1, e1, h1) = bound (mint_tokens p ha existing creds []) _ s h in
      let (yaml, s2, e2, h2) = bound (attempt (lift (proxy_yaml p ha creds tokens))) _ s1 h1 in
      let start = (proxy_config_key, yaml) ∷ [] in
      let contents : StringMap String = put_tokens tokens creds start in
      let is_desired : egress_secret p ha contents ≡ desired = next_injective h2 in
      let is_contents : o.contents ≡ contents =
        same ∙ ap (λ (x : Secret). x.contents) (sym is_desired) in
      let held =
        held_as o contents tokens creds is_contents (put_tokens-HasToken tokens creds start d) in
      let minted = mint_tokens-again p ha existing creds [] s o d e1 held t in
      let made = attempted (lift (proxy_yaml p ha creds tokens)) s1 e2 in
      (
        rebuilt creds o t minted (lift_ok _ s1 made) ∙ ap (λ (x : Secret). (next x, t)) is_desired,
        subst (λ (x : StringMap String). contents_equal x desired.contents ≡ true) (sym same)
            (subst (λ (x : Secret). contents_equal x.contents x.contents ≡ true) is_desired
              (contents_equal_refl contents (Distinct-put_tokens tokens creds start (refl, tt)))),
      )

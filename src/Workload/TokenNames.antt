-- ===== src/Workload/TokenNames.antt =====
-- The env vars for which the agent's container gets a token, against the names of the credentials
-- (internal/usecase/hermesagent_statefulset_egress.go).
use hermes_agent_operator.Prelude.{
  String, Bool, true, false, Option, none, List, [], ◌∷◌, ◌++◌, ◌&&◌, ◌||◌, ◌≡◌, refl, ◌∙◌, subst,
  arith, eq_iff, str_eq, All, StringMap, insert, keys, contains, filter, Bool-cases, inl, inr,
}
use hermes_agent_operator.Objects.{Secret}
use hermes_agent_operator.Api.Egress.{EgressCredential, env_names}
use hermes_agent_operator.Api.Agent.{HermesAgent}
use hermes_agent_operator.Kube.Client.{Platform}
use hermes_agent_operator.Kube.Exec.{State, next, pure, attempt, lift}
use hermes_agent_operator.Kube.Bound.{next_injective, bound}
use hermes_agent_operator.Managed.Lists.{contains-keys-insert}
use hermes_agent_operator.Egress.Claims.Laws.{all_names}
use hermes_agent_operator.Egress.Proxy.{token_of}
use hermes_agent_operator.Egress.Tokens.{
  proxy_config_key, put_names, put_tokens, mint_tokens, proxy_yaml, build_egress_secret,
}
use hermes_agent_operator.Workload.Inputs.{insert_sorted, sort_strings, is_token_key, hashed_keys}

contains-insert_sorted :
    (x : String) (ys : List String) (n : String)
    → contains (insert_sorted x ys) n ≡ (str_eq x n || contains ys n)
contains-insert_sorted x [] n = refl
contains-insert_sorted x (y ∷ ys) n = ground (arith, contains-insert_sorted x ys n)

contains-sort_strings :
    (xs : List String) (n : String) → contains (sort_strings xs) n ≡ contains xs n
contains-sort_strings [] n = refl
contains-sort_strings (x ∷ xs) n =
    contains-insert_sorted x (sort_strings xs) n ∙ rw (contains-sort_strings xs n) refl

contains-filter :
    (p : String → Bool) (xs : List String) (n : String)
    → contains (filter p xs) n ≡ (contains xs n && p n)
contains-filter p [] n = refl
contains-filter p (x ∷ xs) n = elim (Bool-cases (str_eq x n)) [
  | inl e ↦
      subst (λ (m : String). contains (filter p (x ∷ xs)) m ≡ (contains (x ∷ xs) m && p m))
        ((eq_iff x n).0 e) (ground (arith, eq_iff x x, contains-filter p xs x))
  | inr e ↦ ground (arith, contains-filter p xs n)
]

contains-append :
    (xs ys : List String) (n : String) → contains (xs ++ ys) n ≡ (contains xs n || contains ys n)
contains-append [] ys n = refl
contains-append (x ∷ xs) ys n = ground (arith, contains-append xs ys n)

keys-put_names :
    (t : String) (ns : List String) (m : StringMap String) (j : String)
    → contains (keys (put_names t ns m)) j ≡ (contains ns j || contains (keys m) j)
keys-put_names t [] m j = refl
keys-put_names t (n ∷ ns) m j =
    ground (arith, keys-put_names t ns (insert m n t) j, contains-keys-insert m n t j)

keys-put_tokens :
    (tokens : StringMap String) (creds : List EgressCredential) (m : StringMap String) (j : String)
    → contains (keys (put_tokens tokens creds m)) j
      ≡ (contains (all_names creds) j || contains (keys m) j)
keys-put_tokens tokens [] m j = refl
keys-put_tokens tokens (c ∷ cs) m j =
    keys-put_tokens tokens cs (put_names (token_of tokens c) (env_names c.secret) m) j
    ∙ rw (keys-put_names (token_of tokens c) (env_names c.secret) m j)
        (rw (contains-append (env_names c.secret) (all_names cs) j) (ground arith))

each_passes :
    (names : List String) (n : String)
    → All (λ k. is_token_key k ≡ true) names
    → contains names n ≡ true
    → is_token_key n ≡ true
each_passes [] n h k = cc
each_passes (x ∷ xs) n h k = elim (Bool-cases (str_eq x n)) [
  | inl e ↦ subst (λ (m : String). is_token_key m ≡ true) ((eq_iff x n).0 e) h.0
  | inr e ↦ each_passes xs n h.1 (ground arith)
]

pub contains-token_names :
    (contents : StringMap String) (n : String)
    → contains (filter is_token_key (hashed_keys none contents)) n ≡ true
    → contains (keys contents) n ≡ true
contains-token_names contents n h = ground (
  arith,
  contains-filter is_token_key (sort_strings (keys contents)) n,
  contains-sort_strings (keys contents) n,
)

-- The keys of the Secret that are env var names, where all names of the credentials are.
kept_names :
    (names keys_there : List String) (n : String)
    → All (λ k. is_token_key k ≡ true) names
    → contains keys_there n ≡ (contains names n || (str_eq proxy_config_key n || false))
    → (contains keys_there n && is_token_key n) ≡ contains names n
kept_names names keys_there n h e = elim (Bool-cases (contains names n)) [
  | inl k ↦ let pass = each_passes names n h k in ground arith
  | inr k ↦ elim (Bool-cases (str_eq proxy_config_key n)) [
    | inl same ↦
        let no : is_token_key n ≡ false =
          subst (λ (m : String). is_token_key m ≡ false) ((eq_iff proxy_config_key n).0 same)
            refl in
        ground arith
    | inr differs ↦ ground arith
  ]
]

module _ {W : Type 0} (p : Platform W) (ha : HermesAgent) where
  -- Where each name of a credential, aliases included, is the name of an env var: the names that the
  -- StatefulSet's reconciler takes from the Secret that the egress reconciler built, to give the agent's
  -- container a token under each, are exactly the names of the credentials. The configuration of the
  -- proxy is not among them.
  pub token_names-built :
      (creds : List EgressCredential) (existing : Option Secret) (s : State W) {built : Secret}
      → All (λ n. is_token_key n ≡ true) (all_names creds)
      → (build_egress_secret p ha creds existing s).0 ≡ next built
      → (n : String)
      → contains (filter is_token_key (hashed_keys none built.contents)) n
        ≡ contains (all_names creds) n
  unfolding build_egress_secret pure
  token_names-built creds existing s {built} names h n =
      let (tokens, s1, e1, h1) = bound (mint_tokens p ha existing creds []) _ s h in
      let (yaml, s2, e2, h2) = bound (attempt (lift (proxy_yaml p ha creds tokens))) _ s1 h1 in
      let contents = put_tokens tokens creds ((proxy_config_key, yaml) ∷ []) in
      subst
        (λ (o : Secret).
          contains (filter is_token_key (hashed_keys none o.contents)) n
          ≡ contains (all_names creds) n)
        (next_injective h2)
        (contains-filter is_token_key (sort_strings (keys contents)) n
          ∙ rw (contains-sort_strings (keys contents) n) (
              kept_names (all_names creds) (keys contents) n names
                (keys-put_tokens tokens creds ((proxy_config_key, yaml) ∷ []) n)))

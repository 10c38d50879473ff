-- ===== src/Egress/Resolve/Laws.antt =====
-- The resolved credentials (ResolveCredentials, api/v1alpha1/hermesagent_egress.go) against the
-- credentials Secret and the spec.
use hermes_agent_operator.Prelude.{
  String, Bool, true, false, Option, List, [], ◌∷◌, ◌≡◌, refl, All, ◌||◌, contains, is_empty,
  str_eq, arith, eq_iff, Bool-cases, inl, inr, subst, sym,
}
use hermes_agent_operator.Api.Egress.{
  Egress, EgressSecret, EgressCredential, env_names, get_extra_secrets,
}
use hermes_agent_operator.Kube.Client.{on_ok_ok, Error, Result, ok, err}
use hermes_agent_operator.Egress.Claims.{check_credential_claims}
use hermes_agent_operator.Egress.Claims.Laws.{
  IsDistinct, IsDisjoint, all_names, check_credential_claims-IsDistinct,
}
use hermes_agent_operator.Egress.Resolve.{
  egress_providers, first_key, source_key, put_spec, merge_specs, is_named, put_first, collect,
  resolve_credentials,
}

-- The names of the credentials.
abbrev pub is_credential : List EgressCredential → String → Bool
is_credential [] name = false
is_credential (c ∷ cs) name = str_eq c.secret.name name || is_credential cs name

-- The real value is stored under a name of the credential's own.
abbrev pub IsBacked : List String → EgressCredential → Type 0
IsBacked present c =
    (contains present c.source_key ≡ true) × (contains (env_names c.secret) c.source_key ≡ true)

first_key_present :
    (ks present : List String)
    → is_empty (first_key ks present) ≡ false
    → (contains present (first_key ks present) ≡ true) × (contains ks (first_key ks present) ≡ true)
unfolding first_key
first_key_present [] present h = cc
first_key_present (k ∷ ks) present h = elim (Bool-cases (contains present k)) [
  | inl e ↦ rw e (e, ground (arith, eq_iff k k))
  | inr e ↦
      let rest = first_key_present ks present (rw e at h) in rw e (rest.0, ground (arith, rest.1))
]

is_named-put_spec :
    (ps : List EgressSecret) (s : EgressSecret) (n : String)
    → (is_named ps n || str_eq s.name n) ≡ true
    → is_named (put_spec ps s) n ≡ true
unfolding put_spec
is_named-put_spec [] s n h = ground arith
is_named-put_spec (p ∷ ps) s n h =
    ground (arith, is_named-put_spec ps s n, eq_iff p.name s.name, eq_iff p.name n, eq_iff s.name n)

is_named-merge :
    (extra specs : List EgressSecret) (n : String)
    → (is_named specs n || is_named extra n) ≡ true
    → is_named (merge_specs specs extra) n ≡ true
unfolding merge_specs
is_named-merge [] specs n h = ground arith
is_named-merge (s ∷ extra) specs n h =
    is_named-merge extra (put_spec specs s) n (ground (arith, is_named-put_spec specs s n))

record Collected (present : List String) (extra specs : List EgressSecret)
    (creds : List EgressCredential) : Type 0 where
  backed : All (IsBacked present) creds
  included :
      (n : String)
      → is_named extra n ≡ true
      → is_named specs n ≡ true
      → is_credential creds n ≡ true

put_first_ok :
    (c : EgressCredential) (r : Result (List EgressCredential)) {creds : List EgressCredential}
    → put_first c r ≡ ok creds
    → (cs : List EgressCredential) × (r ≡ ok cs) × (creds ≡ c ∷ cs)
put_first_ok c (ok cs) h = (cs, refl, cc h)
put_first_ok c (err e) h = cc

not_ok : {A : Type 0} {e : Error} {a : A} → err e ≡ ok a → ⊥
not_ok h = cc

collected :
    (present : List String) (extra specs : List EgressSecret) {creds : List EgressCredential}
    → collect present extra specs ≡ ok creds
    → Collected present extra specs creds
unfolding collect
collected present extra [] {creds} h =
    let same : [] ≡ creds = cc h in
    subst (λ (cs : List EgressCredential). Collected present extra [] cs) same
      (record { backed = tt; included = λ n a b. cc })
collected present extra (s ∷ specs) {creds} h =
    elim (Bool-cases (is_empty (source_key present s))) [
      | inl e ↦ elim (Bool-cases (is_named extra s.name)) [
        | inl f ↦ absurd (not_ok (rw (e, f) at h))
        | inr f ↦
            let rest = collected present extra specs {creds = creds} (rw (e, f) at h) in
            record {
              backed = rest.backed;
              included = λ n a b. rest.included n a (ground (arith, eq_iff s.name n));
            }
      ]
      | inr e ↦
          let (cs, k, same) = put_first_ok _ (collect present extra specs) (rw e at h) in
          let rest = collected present extra specs k in
          subst (λ (l : List EgressCredential). Collected present extra (s ∷ specs) l) (sym same)
            (record {
              backed = (first_key_present (env_names s) present e, rest.backed);
              included = λ n a b. ground (arith, rest.included n);
            })
    ]

-- What the proxy's configuration relies on.
pub record IsResolved (e : Option Egress) (present : List String) (creds : List EgressCredential)
    : Type 0 where
  pub backed : All (IsBacked present) creds
  pub extra_included :
      (n : String) → is_named (get_extra_secrets e) n ≡ true → is_credential creds n ≡ true
  pub names_distinct : IsDistinct (all_names creds)
  pub hosts_disjoint : IsDisjoint creds

-- When the credentials resolve, each has its real value under a key that the credentials Secret holds
-- and that is its own name or one of its aliases; every extra entry of the spec is among them by name;
-- their env var names are all different; and no host pattern of one overlaps that of an earlier one.
pub resolve_credentials-IsResolved :
    (e : Option Egress) (present : List String) {creds : List EgressCredential}
    → resolve_credentials e present ≡ ok creds
    → IsResolved e present creds
unfolding resolve_credentials
resolve_credentials-IsResolved e present {creds} h =
    let extra = get_extra_secrets e in
    let (cs, k, l) = on_ok_ok (collect present extra (merge_specs egress_providers extra)) _ h in
    let (u, checked, last) = on_ok_ok (check_credential_claims cs) (λ _. ok cs) l in
    let all = collected present extra (merge_specs egress_providers extra) k in
    let (distinct, disjoint) = check_credential_claims-IsDistinct cs checked in
    subst (IsResolved e present) (cc last) (record {
      backed = all.backed;
      extra_included =
          λ n a. all.included n a (is_named-merge extra egress_providers n (ground arith));
      names_distinct = distinct;
      hosts_disjoint = disjoint;
    })

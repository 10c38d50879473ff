-- ===== src/HermesSecret/Kept.antt =====
-- The keys of the Secret that is rebuilt (internal/usecase/hermesagent_hermes_secret.go).
use hermes_agent_operator.Prelude.{
  String, Bool, true, false, Option, none, some, [], ◌≡◌, ◌≢◌, refl, arith, eq_iff, str_eq,
  is_empty, is_some, StringMap, lookup, insert, lookup-insert, Bool-cases, inl, inr, subst, sym, ap,
  ◌∙◌,
}
use hermes_agent_operator.Objects.{Secret}
use hermes_agent_operator.Api.Agent.{HermesAgent}
use hermes_agent_operator.Kube.Client.{Platform}
use hermes_agent_operator.Kube.Exec.{State, next, pure, attempt}
use hermes_agent_operator.Kube.Calls.{read_random}
use hermes_agent_operator.Kube.Bound.{next_injective, bound}
use hermes_agent_operator.HermesSecret.{
  api_server_key, webhook_secret, kept, api_on, webhook_on, mint, add_key, build_hermes_secret,
}

-- How one key stands in the new contents, against the key of the same name before.
abbrev pub IsKept : Bool → Option Secret → String → StringMap String → Type 0
IsKept on existing k m =
    (on ≡ false → lookup m k ≡ none)
    × (on ≡ true → is_empty (kept existing k) ≡ false → lookup m k ≡ some (kept existing k))
    × (on ≡ true → is_some (lookup m k) ≡ true)

-- What adding one key does to the contents so far.
record Adds (on : Bool) (existing : Option Secret) (k : String) (m m' : StringMap String)
    : Type 0 where
  this : IsKept on existing k m'
  others : (j : String) → k ≢ j → lookup m' j ≡ lookup m j

true_is_not_false : true ≡ false → ⊥
true_is_not_false h = cc

keys_differ : api_server_key ≢ webhook_secret
keys_differ h = true_is_not_false (ap (str_eq api_server_key) h)

inserted :
    (existing : Option Secret) (k v : String) (m : StringMap String)
    → (is_empty (kept existing k) ≡ false → v ≡ kept existing k)
    → Adds true existing k m (insert m k v)
inserted existing k v m h = record {
  this = (
    λ off. absurd (true_is_not_false off),
    λ on e. ground (arith, lookup-insert m k k v, eq_iff k k, h e),
    λ on. ground (arith, lookup-insert m k k v, eq_iff k k),
  );
  others = λ j d. ground (arith, lookup-insert m k j v, eq_iff k j, d);
}

module _ {W : Type 0} (p : Platform W) (ha : HermesAgent) where
  minted :
      (k : String) (existing : Option Secret) (m : StringMap String) (s : State W)
      {m' : StringMap String}
      → is_empty (kept existing k) ≡ true
      → (mint p ha k m s).0 ≡ next m'
      → Adds true existing k m m'
  unfolding mint pure
  minted k existing m s e h =
      let (raw, t, got, k') =
        bound (attempt (read_random p 32)) (λ raw. pure (insert m k raw)) s h in
      subst (Adds true existing k m) (next_injective k')
        (inserted existing k raw m (λ q. absurd (true_is_not_false (sym e ∙ q))))

  added :
      (on : Bool) (k : String) (existing : Option Secret) (m : StringMap String) (s : State W)
      {m' : StringMap String}
      → lookup m k ≡ none
      → (add_key p ha on k existing m s).0 ≡ next m'
      → Adds on existing k m m'
  unfolding add_key pure
  added false k existing m s {m'} absent h =
      subst (Adds false existing k m) (next_injective h) (record {
        this = (
          λ off. absent,
          λ on. absurd (true_is_not_false (sym on)),
          λ on. absurd (true_is_not_false (sym on)),
        );
        others = λ j d. refl;
      })
  added true k existing m s {m'} absent h = elim (Bool-cases (is_empty (kept existing k))) [
    | inl e ↦ minted k existing m s e (rw e at h)
    | inr e ↦
        subst (Adds true existing k m) (next_injective (rw e at h))
          (inserted existing k (kept existing k) m (λ q. refl))
  ]

  -- A Secret that is built from the one that is there has, for the API server's key and for the
  -- webhook's secret, no entry while the feature is off; and while it is on, an entry, with the value
  -- that is there, unless that is empty or missing.
  pub build_hermes_secret-keeps :
      (existing : Option Secret) (s : State W) {desired : Secret}
      → (build_hermes_secret p ha existing s).0 ≡ next desired
      → IsKept (api_on p ha) existing api_server_key desired.contents
        × IsKept (webhook_on p ha) existing webhook_secret desired.contents
  unfolding build_hermes_secret pure
  build_hermes_secret-keeps existing s h =
      let (m, t, e, h1) = bound (add_key p ha (api_on p ha) api_server_key existing []) _ s h in
      let (m', t', e', h2) =
        bound (add_key p ha (webhook_on p ha) webhook_secret existing m) _ t h1 in
      let first = added (api_on p ha) api_server_key existing [] s refl e in
      let absent = first.others webhook_secret keys_differ in
      let second = added (webhook_on p ha) webhook_secret existing m t absent e' in
      let same = second.others api_server_key (λ q. keys_differ (sym q)) in
      subst
        (λ (o : Secret).
          IsKept (api_on p ha) existing api_server_key o.contents
          × IsKept (webhook_on p ha) existing webhook_secret o.contents)
        (next_injective h2)
        (
          (
            λ off. same ∙ first.this.0 off,
            λ on full. same ∙ first.this.1 on full,
            λ on. ap is_some same ∙ first.this.2 on,
          ),
          second.this,
        )

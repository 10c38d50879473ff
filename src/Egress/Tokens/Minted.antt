-- ===== src/Egress/Tokens/Minted.antt =====
-- The loop over the credentials (internal/usecase/hermesagent_egress_secret.go), and the map of the tokens.
use hermes_agent_operator.Prelude.{
  String, Bool, true, false, Option, some, List, [], ◌∷◌, ◌≡◌, ◌≢◌, refl, sym, ap, subst, ◌∙◌,
  arith, eq_iff, All, All-append_right, StringMap, lookup, insert, lookup-insert, is_empty,
  Bool-cases, inl, inr,
}
use hermes_agent_operator.Objects.{Secret}
use hermes_agent_operator.Api.Egress.{EgressCredential, env_names}
use hermes_agent_operator.Api.Agent.{HermesAgent}
use hermes_agent_operator.Kube.Client.{ok_injective, Result, ok, err, Platform}
use hermes_agent_operator.Kube.Exec.{State, next, Exec, pure, ◌>>=◌}
use hermes_agent_operator.Kube.Calls.{read_random}
use hermes_agent_operator.Kube.Bound.{next_injective, bound, attempted}
use hermes_agent_operator.HermesSecret.{kept}
use hermes_agent_operator.Egress.Claims.Laws.{IsDistinct, all_names}
use hermes_agent_operator.Egress.Mint.{egress_proxy_token, egress_proxy_token-full}
use hermes_agent_operator.Egress.Proxy.{token_of}
use hermes_agent_operator.Egress.Tokens.{minted, token_for, mint_tokens, mint_egress_proxy_token}
use hermes_agent_operator.Egress.Tokens.Entries.{Avoids, IsDistinct-right, IsDistinct-apart}

true_is_not_false : ◌≡◌ {A = Bool} true false → ⊥
true_is_not_false h = cc

-- What the tokens' loop leaves: names of no credential as they were; a token for each that is not empty;
-- and the one that was there where it was not.
pub record Minted (existing : Option Secret) (creds : List EgressCredential)
    (m tokens : StringMap String) : Type 0 where
  pub others : (j : String) → Avoids j (all_names creds) → lookup tokens j ≡ lookup m j
  pub full : All (λ c. is_empty (token_of tokens c) ≡ false) creds
  pub same :
      All
        (λ c.
          is_empty (kept existing c.secret.name) ≡ false
          → token_of tokens c ≡ kept existing c.secret.name)
        creds

minted_text_full :
    (name : String) (r : Result String) {t : String} → minted name r ≡ ok t → is_empty t ≡ false
minted_text_full name (ok raw) {t} h =
    let same : egress_proxy_token name raw ≡ t = ok_injective h in
    subst (λ (x : String). is_empty x ≡ false) same (egress_proxy_token-full name raw)
minted_text_full name (err e) h = cc

inserted : (m : StringMap String) (k t : String) → lookup (insert m k t) k ≡ some t
inserted m k t = ground (arith, lookup-insert m k k t, eq_iff k k)

other_key : (m : StringMap String) (k j t : String) → k ≢ j → lookup (insert m k t) j ≡ lookup m j
other_key m k j t h = ground (arith, lookup-insert m k j t, eq_iff k j, h)

pub again_step :
    {W A B : Type 0} (m : Exec W A) (f : A → Exec W B) (x : A) (t : State W)
    → m t ≡ (next x, t)
    → (m >>= f) t ≡ f x t
unfolding ◌>>=◌
again_step m f x t h = rw h refl

module _ {W : Type 0} (p : Platform W) (ha : HermesAgent) where
  minted_full :
      (name : String) (s : State W) {t : String}
      → (mint_egress_proxy_token p ha name s).0 ≡ ok t
      → is_empty t ≡ false
  unfolding mint_egress_proxy_token
  minted_full name s h = minted_text_full name (read_random p 16 s).0 h

  token_is :
      (existing : Option Secret) (c : EgressCredential) (s : State W) {t : String}
      → (token_for p ha existing c s).0 ≡ next t
      → (is_empty t ≡ false)
        × (is_empty (kept existing c.secret.name) ≡ false → t ≡ kept existing c.secret.name)
  unfolding token_for pure
  token_is existing c s {t} h = elim (Bool-cases (is_empty (kept existing c.secret.name))) [
    | inl e ↦ (
      minted_full c.secret.name s (attempted _ s (rw e at h)),
      λ k. absurd (true_is_not_false (sym e ∙ k)),
    )
    | inr e ↦
        let same = next_injective (rw e at h) in
        (subst (λ (x : String). is_empty x ≡ false) same e, λ k. sym same)
  ]

  entry_is :
      (tokens : StringMap String) (c : EgressCredential) {t : String}
      → lookup tokens c.secret.name ≡ some t
      → token_of tokens c ≡ t
  entry_is tokens c h = rw h refl

  -- The tokens that the loop over the credentials leaves.
  pub mint_tokens-Minted :
      (existing : Option Secret) (creds : List EgressCredential) (m : StringMap String)
      (s : State W) {tokens : StringMap String}
      → IsDistinct (all_names creds)
      → (mint_tokens p ha existing creds m s).0 ≡ next tokens
      → Minted existing creds m tokens
  unfolding mint_tokens pure
  mint_tokens-Minted existing [] m s {tokens} d h =
      subst (λ (x : StringMap String). Minted existing [] m x) (next_injective h)
        (record { others = λ j a. refl; full = tt; same = tt })
  mint_tokens-Minted existing (c ∷ cs) m s {tokens} d h =
      let (t, s', e, k) =
        bound (token_for p ha existing c)
          (λ t. mint_tokens p ha existing cs (insert m c.secret.name t)) s h in
      let rest =
        mint_tokens-Minted existing cs (insert m c.secret.name t) s'
          (IsDistinct-right (env_names c.secret) (all_names cs) d) k in
      let (full, same) = token_is existing c s e in
      let apart = IsDistinct-apart (env_names c.secret) (all_names cs) d in
      let there : lookup tokens c.secret.name ≡ some t =
        rest.others c.secret.name apart.0 ∙ inserted m c.secret.name t in
      record {
        others = λ j a.
            rest.others j (All-append_right (λ n. n ≢ j) (env_names c.secret) (all_names cs) a)
            ∙ other_key m c.secret.name j t a.0;
        full = (rw (entry_is tokens c there) full, rest.full);
        same = (λ q. entry_is tokens c there ∙ same q, rest.same);
      }

  token_again :
      (o : Secret) (c : EgressCredential) (t : State W)
      → is_empty (kept (some o) c.secret.name) ≡ false
      → token_for p ha (some o) c t ≡ (next (kept (some o) c.secret.name), t)
  unfolding token_for pure
  token_again o c t h = rw h refl

  -- The loop repeats itself from a Secret that has what it left, and needs nothing of the world.
  pub mint_tokens-again :
      (existing : Option Secret) (creds : List EgressCredential) (m : StringMap String)
      (s : State W) {tokens : StringMap String} (o : Secret)
      → IsDistinct (all_names creds)
      → (mint_tokens p ha existing creds m s).0 ≡ next tokens
      → All (λ c. kept (some o) c.secret.name ≡ token_of tokens c) creds
      → (t : State W) → mint_tokens p ha (some o) creds m t ≡ (next tokens, t)
  unfolding mint_tokens pure
  mint_tokens-again existing [] m s {tokens} o d h k t =
      ap (λ (x : StringMap String). (next x, t)) (next_injective h)
  mint_tokens-again existing (c ∷ cs) m s {tokens} o d h k t =
      let (x, s', e, k') =
        bound (token_for p ha existing c)
          (λ x. mint_tokens p ha existing cs (insert m c.secret.name x)) s h in
      let behind = IsDistinct-right (env_names c.secret) (all_names cs) d in
      let rest = mint_tokens-Minted existing cs (insert m c.secret.name x) s' behind k' in
      let apart = IsDistinct-apart (env_names c.secret) (all_names cs) d in
      let there : lookup tokens c.secret.name ≡ some x =
        rest.others c.secret.name apart.0 ∙ inserted m c.secret.name x in
      let same : kept (some o) c.secret.name ≡ x = k.0 ∙ entry_is tokens c there in
      let full : is_empty (kept (some o) c.secret.name) ≡ false =
        rw same (token_is existing c s e).0 in
      again_step (token_for p ha (some o) c)
        (λ y. mint_tokens p ha (some o) cs (insert m c.secret.name y)) x t
        (subst (λ (y : String). token_for p ha (some o) c t ≡ (next y, t)) same
          (token_again o c t full))
      ∙ mint_tokens-again existing cs (insert m c.secret.name x) s' o behind k' k.1 t

-- ===== src/Egress/Claims/Laws.antt =====
-- The check of the claims (checkCredentialClaims, api/v1alpha1/hermesagent_egress.go) against a
-- description of distinct ones.
use hermes_agent_operator.Prelude.{
  String, Bool, true, false, none, some, List, [], ◌∷◌, ◌++◌, ◌≡◌, ◌≢◌, All, All-append,
  All-append_left, All-append_right, All-imp, lookup, insert, lookup-insert, StringMap, arith,
  eq_iff, Option-cases, Bool-cases, inl, inr, subst, sym,
}
use hermes_agent_operator.Api.Egress.{EgressCredential, env_names}
use hermes_agent_operator.Kube.Client.{ok_injective, on_ok_ok, Error, ok, err}
use hermes_agent_operator.Egress.Hosts.{hosts_overlap}
use hermes_agent_operator.Egress.Claims.{
  claim_names, overlaps_any, first_overlap, claim_hosts, check_claims, check_credential_claims,
}

abbrev pub IsDistinct : List String → Type 0
IsDistinct [] = Unit
IsDistinct (n ∷ ns) = All (λ m. n ≢ m) ns × IsDistinct ns

-- The env var names of all credentials, in order.
abbrev pub all_names : List EgressCredential → List String
all_names [] = []
all_names (c ∷ cs) = env_names c.secret ++ all_names cs

abbrev pub NoOverlap : EgressCredential → EgressCredential → Type 0
NoOverlap c d = All (λ h. All (λ oh. hosts_overlap h oh ≡ false) d.hosts) c.hosts

abbrev pub IsDisjoint : List EgressCredential → Type 0
IsDisjoint [] = Unit
IsDisjoint (c ∷ cs) = All (λ d. NoOverlap d c) cs × IsDisjoint cs

abbrev IsFree : StringMap String → String → Type 0
IsFree taken n = lookup taken n ≡ none

err_is_not_ok : {A : Type 0} {e : Error} {a : A} → err e ≡ ok a → ⊥
err_is_not_ok h = cc

true_is_not_false : ◌≡◌ {A = Bool} true false → ⊥
true_is_not_false h = cc

some_is_not_none : {A : Type 0} {a : A} → some a ≡ none → ⊥
some_is_not_none h = cc

IsFree-insert :
    (taken : StringMap String) (n m owner : String)
    → IsFree (insert taken n owner) m
    → (n ≢ m) × IsFree taken m
IsFree-insert taken n m owner h = ground (arith, lookup-insert taken n m owner, eq_iff n m)

record NamesClaimed (ns : List String) (taken taken' : StringMap String) : Type 0 where
  free : All (IsFree taken) ns
  distinct : IsDistinct ns
  later : (m : String) → IsFree taken' m → All (λ n. n ≢ m) ns × IsFree taken m

claim_names-NamesClaimed :
    (owner : String) (ns : List String) (taken : StringMap String) {taken' : StringMap String}
    → claim_names owner ns taken ≡ ok taken'
    → NamesClaimed ns taken taken'
unfolding claim_names
claim_names-NamesClaimed owner [] taken h = record {
  free = tt;
  distinct = tt;
  later = λ m k. (tt, subst (λ t. IsFree t m) (sym (ok_injective h)) k);
}
claim_names-NamesClaimed owner (n ∷ ns) taken {taken'} h = elim (Option-cases (lookup taken n)) [
  | inl e ↦
      let rest =
        claim_names-NamesClaimed owner ns (insert taken n owner) {taken' = taken'} (rw e at h) in
      record {
        free = (
          e,
          All-imp (IsFree (insert taken n owner)) (IsFree taken) ns
              (λ m k. (IsFree-insert taken n m owner k).1) rest.free,
        );
        distinct = (
          All-imp (IsFree (insert taken n owner)) (λ m. n ≢ m) ns
              (λ m k. (IsFree-insert taken n m owner k).0) rest.free,
          rest.distinct,
        );
        later = λ m k.
            let (others, free) = rest.later m k in
            let (ne, kept) = IsFree-insert taken n m owner free in ((ne, others), kept);
      }
  | inr (o, e) ↦ absurd (err_is_not_ok (rw e at h))
]

overlaps_any_none :
    (h : String) (ohs : List String)
    → overlaps_any h ohs ≡ false
    → All (λ oh. hosts_overlap h oh ≡ false) ohs
unfolding overlaps_any
overlaps_any_none h [] e = tt
overlaps_any_none h (oh ∷ ohs) e = elim (Bool-cases (hosts_overlap h oh)) [
  | inl q ↦ absurd (true_is_not_false (rw q at e))
  | inr q ↦ (q, overlaps_any_none h ohs (rw q at e))
]

first_overlap-none :
    (hs others : List String)
    → first_overlap hs others ≡ none
    → All (λ h. All (λ oh. hosts_overlap h oh ≡ false) others) hs
unfolding first_overlap
first_overlap-none [] others e = tt
first_overlap-none (h ∷ hs) others e = elim (Bool-cases (overlaps_any h others)) [
  | inl q ↦ absurd (some_is_not_none (rw q at e))
  | inr q ↦ (overlaps_any_none h others q, first_overlap-none hs others (rw q at e))
]

claim_hosts-NoOverlap :
    (c : EgressCredential) (before : List EgressCredential)
    → claim_hosts c before ≡ ok tt
    → All (λ b. NoOverlap c b) before
unfolding claim_hosts
claim_hosts-NoOverlap c [] h = tt
claim_hosts-NoOverlap c (b ∷ before) h = elim (Option-cases (first_overlap c.hosts b.hosts)) [
  | inl e ↦ (first_overlap-none c.hosts b.hosts e, claim_hosts-NoOverlap c before (rw e at h))
  | inr (x, e) ↦ absurd (err_is_not_ok (rw e at h))
]

IsDistinct-append :
    (xs ys : List String)
    → IsDistinct xs
    → IsDistinct ys
    → All (λ m. All (λ n. n ≢ m) xs) ys
    → IsDistinct (xs ++ ys)
IsDistinct-append [] ys h k q = k
IsDistinct-append (x ∷ xs) ys h k q = (
  All-append (λ m. x ≢ m) xs ys h.0
      (All-imp (λ m. All (λ n. n ≢ m) (x ∷ xs)) (λ m. x ≢ m) ys (λ m a. a.0) q),
  IsDistinct-append xs ys h.1 k
      (All-imp (λ m. All (λ n. n ≢ m) (x ∷ xs)) (λ m. All (λ n. n ≢ m) xs) ys (λ m a. a.1) q),
)

record Claimed (taken : StringMap String) (before creds : List EgressCredential) : Type 0 where
  free : All (IsFree taken) (all_names creds)
  distinct : IsDistinct (all_names creds)
  apart : All (λ d. All (λ b. NoOverlap d b) before) creds
  disjoint : IsDisjoint creds

-- Both steps for one credential went well.
step_ok :
    (taken : StringMap String) (before : List EgressCredential) (c : EgressCredential)
    (cs : List EgressCredential)
    → check_claims taken before (c ∷ cs) ≡ ok tt
    → (taken' : StringMap String) × (claim_names c.name (env_names c.secret) taken ≡ ok taken')
      × (claim_hosts c before ≡ ok tt)
      × (check_claims taken' (before ++ (c ∷ [])) cs ≡ ok tt)
unfolding check_claims
step_ok taken before c cs h =
    let (taken', e, k) = on_ok_ok (claim_names c.name (env_names c.secret) taken) _ h in
    let (u, e', k') = on_ok_ok (claim_hosts c before) _ k in (taken', e, e', k')

claims :
    (taken : StringMap String) (before creds : List EgressCredential)
    → check_claims taken before creds ≡ ok tt
    → Claimed taken before creds
unfolding check_claims
claims taken before [] h = record { free = tt; distinct = tt; apart = tt; disjoint = tt }
claims taken before (c ∷ cs) h =
    let (taken', e, e', k) = step_ok taken before c cs h in
    let names = claim_names-NamesClaimed c.name (env_names c.secret) taken e in
    let rest = claims taken' (before ++ (c ∷ [])) cs k in
    record {
      free = All-append (IsFree taken) (env_names c.secret) (all_names cs) names.free (
          All-imp (IsFree taken') (IsFree taken) (all_names cs) (λ m f. (names.later m f).1)
            rest.free);
      distinct =
          IsDistinct-append (env_names c.secret) (all_names cs) names.distinct rest.distinct (
            All-imp (IsFree taken') (λ m. All (λ n. n ≢ m) (env_names c.secret)) (all_names cs)
              (λ m f. (names.later m f).0) rest.free);
      apart = (
        claim_hosts-NoOverlap c before e',
        All-imp (λ d. All (λ b. NoOverlap d b) (before ++ (c ∷ [])))
            (λ d. All (λ b. NoOverlap d b) before) cs
            (λ d a. All-append_left (λ b. NoOverlap d b) before (c ∷ []) a) rest.apart,
      );
      disjoint = (
        All-imp (λ d. All (λ b. NoOverlap d b) (before ++ (c ∷ []))) (λ d. NoOverlap d c) cs
            (λ d a. (All-append_right (λ b. NoOverlap d b) before (c ∷ []) a).0) rest.apart,
        rest.disjoint,
      );
    }

-- Credentials that pass the check have pairwise different env var names, aliases included, also within
-- one credential, and no host pattern of one overlaps a host pattern of an earlier one.
pub check_credential_claims-IsDistinct :
    (creds : List EgressCredential)
    → check_credential_claims creds ≡ ok tt
    → IsDistinct (all_names creds) × IsDisjoint creds
unfolding check_credential_claims
check_credential_claims-IsDistinct creds h =
    let all = claims [] [] creds h in (all.distinct, all.disjoint)

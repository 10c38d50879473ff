-- ===== src/Egress/Claims.antt =====
-- The claims of the credentials on env var names and hosts (checkCredentialClaims,
-- api/v1alpha1/hermesagent_egress.go).
pub mod Laws
use hermes_agent_operator.Prelude.{
  String, ◌⧺◌, Bool, true, false, Option, none, some, List, [], ◌∷◌, ◌++◌, lookup, insert,
  StringMap, if_some, if◌then◌else◌,
}
use hermes_agent_operator.Api.Egress.{EgressCredential, env_names}
use hermes_agent_operator.Kube.Client.{Result, ok, err, on_ok, errorf, quoted}
use hermes_agent_operator.Egress.Hosts.{hosts_overlap}

abbrev both_use : String → String → String → String
both_use owner name env =
    "credentials " ⧺ quoted owner ⧺ " and " ⧺ quoted name ⧺ " both use env var " ⧺ quoted env

abbrev both_swap : String → String → String → String
both_swap owner name host =
    "credentials " ⧺ quoted owner ⧺ " and " ⧺ quoted name ⧺ " both swap on host " ⧺ quoted host

-- The loop over the env var names of one credential; `taken` maps each name to its owner.
pub claim_names : String → List String → StringMap String → Result (StringMap String)
claim_names owner [] taken = ok taken
claim_names owner (n ∷ ns) taken =
    let rest = claim_names owner ns (insert taken n owner) in
    if_some (lookup taken n) (λ other. err (errorf (both_use other owner n))) rest

-- The loop over the hosts of another credential, for one host.
pub overlaps_any : String → List String → Bool
unfolding hosts_overlap
overlaps_any h [] = false
overlaps_any h (oh ∷ ohs) = if hosts_overlap h oh then true else overlaps_any h ohs

-- The first host that overlaps one of the other credential.
pub first_overlap : List String → List String → Option String
unfolding overlaps_any
first_overlap [] others = none
first_overlap (h ∷ hs) others = if overlaps_any h others then some h else first_overlap hs others

-- The loop over the credentials before this one.
pub claim_hosts : EgressCredential → List EgressCredential → Result (Unit {0})
unfolding first_overlap
claim_hosts c [] = ok tt
claim_hosts c (other ∷ before) =
    let rest = claim_hosts c before in
    if_some (first_overlap c.hosts other.hosts) (λ h. err (errorf (both_swap other.name c.name h)))
      rest

-- The loop over the credentials, with those before and the names they have taken.
pub check_claims :
    StringMap String → List EgressCredential → List EgressCredential → Result (Unit {0})
unfolding claim_names claim_hosts
check_claims taken before [] = ok tt
check_claims taken before (c ∷ creds) =
    on_ok (claim_names c.name (env_names c.secret) taken)
      λ taken'. on_ok (claim_hosts c before) λ _. check_claims taken' (before ++ (c ∷ [])) creds

unfoldable pub check_credential_claims : List EgressCredential → Result (Unit {0})
unfolding check_claims
check_credential_claims creds = check_claims [] [] creds

-- ===== src/Workload/Inputs.antt =====
-- What the StatefulSet is built from besides the spec: the hash of the bootstrap ConfigMap, and the names
-- and the hash of the egress Secrets (egressPodInputs,
-- internal/usecase/hermesagent_statefulset_egress.go; the hashes of hermesagent_statefulset.go).
use Prim.Native.String.{compare, slice}
use text.Mathlib.Text.{is_le}
use hermes_agent_operator.Prelude.{
  ℕ, String, ◌⧺◌, Bool, true, false, Option, none, some, List, [], ◌∷◌, ◌++◌, ◌&&◌, ◌||◌, ◌==◌, leb,
  str_eq, is_empty, StringMap, lookup, keys, filter, get_or, if◌then◌else◌,
}
use hermes_agent_operator.Objects.{Secret, StatefulSet}
use hermes_agent_operator.Api.Egress.{get_credentials_secret_name}
use hermes_agent_operator.Api.Agent.{HermesAgent, get_egress_secret_name}
use hermes_agent_operator.Kube.Client.{
  Error, inputs_pending, Result, ok, err, wrap, quoted, Platform,
}
use hermes_agent_operator.Kube.Exec.{State, Call}
use hermes_agent_operator.Kube.Calls.{get_secret}
use hermes_agent_operator.Egress.Hosts.{codes}
use hermes_agent_operator.Egress.Refs.{get_egress_ca_source}

pub record StatefulSetInputs : Type 0 where
  pub config_hash : String
  pub egress_token_names : List String
  pub egress_hash : String

-- `sort.Strings`.
abbrev pub insert_sorted : String → List String → List String
insert_sorted x [] = x ∷ []
insert_sorted x (y ∷ ys) =
    let rest = insert_sorted x ys in if is_le (compare x y) then x ∷ y ∷ ys else y ∷ rest

abbrev pub sort_strings : List String → List String
sort_strings [] = []
sort_strings (x ∷ xs) = insert_sorted x (sort_strings xs)

abbrev pub nul : String
nul = "\0"

abbrev pub value_at : StringMap String → String → String
value_at m k = get_or (lookup m k) ""

-- What is written to the hash, key by key.
abbrev pub entries_text : StringMap String → List String → String
entries_text m [] = ""
entries_text m (k ∷ ks) = k ⧺ (nul ⧺ (value_at m k ⧺ (nul ⧺ entries_text m ks)))

abbrev is_letter : ℕ → Bool
is_letter c = (leb b'A' c && leb c b'Z') || (leb b'a' c && leb c b'z') || (c == b'_')

abbrev is_word : List ℕ → Bool
is_word [] = true
is_word (c ∷ cs) = (is_letter c || (leb b'0' c && leb c b'9')) && is_word cs

-- `egressTokenKey`: ^[A-Za-z_][A-Za-z0-9_]*$.
abbrev pub is_token_codes : List ℕ → Bool
is_token_codes [] = false
is_token_codes (c ∷ cs) = is_letter c && is_word cs

abbrev pub is_token_key : String → Bool
is_token_key k = is_token_codes (codes k)

-- Of a Secret that is read: its name, and the keys that are hashed, none for all of them.
abbrev pub Source : Type 0
Source = String × Option (List String)

abbrev pub hashed_keys : Option (List String) → StringMap String → List String
hashed_keys none m = sort_strings (keys m)
hashed_keys (some ks) m = ks

abbrev pub source_text : String → StringMap String → List String → String
source_text name m [] = ""
source_text name m (k ∷ ks) =
    name ⧺ (nul ⧺ (k ⧺ (nul ⧺ (value_at m k ⧺ (nul ⧺ source_text name m ks)))))

abbrev pub not_visible : String → Error
not_visible name = record {
  cause = inputs_pending;
  text = "egress Secrets not visible yet: " ⧺ quoted name;
}

abbrev pub then_call : {W A B : Type 0} → Result A × State W → (A → Call W B) → Result B × State W
then_call (ok a, s) f = f a s
then_call (err e, s) f = (err e, s)

module _ {W : Type 0} (p : Platform W) where
  abbrev pub hash_text : String → String
  hash_text text = slice (p.sha256_hex text) 0 16

  unfoldable pub config_map_data_hash : StringMap String → String
  config_map_data_hash m = hash_text (entries_text m (sort_strings (keys m)))

  unfoldable pub desired_spec_hash : StatefulSet → String
  desired_spec_hash sts = hash_text (p.marshal_spec sts)

  module _ (ha : HermesAgent) where
    -- The names and the text so far, with those of one Secret.
    abbrev pub add_source :
        Source → List String × String → Result (Option Secret) → Result (List String × String)
    add_source (name, ks) (names, text) (ok (some secret)) =
        let hashed = hashed_keys ks secret.contents in
        ok (
          if str_eq name (get_egress_secret_name ha)
              then names ++ filter is_token_key hashed
              else names,
          text ⧺ source_text name secret.contents hashed,
        )
    add_source (name, ks) so_far (ok none) = err (not_visible name)
    add_source (name, ks) so_far (err e) =
        err (wrap ("reading egress input Secret " ⧺ quoted name) e)

    abbrev pub read_source : Source → List String × String → Call W (List String × String)
    read_source source so_far s =
        let (r, s') = get_secret p (record { namespace = ha.namespace; name = source.0 }) s in
        (add_source source so_far r, s')

    -- A name that is "" is passed over.
    unfoldable pub read_sources : List Source → List String × String → Call W (List String × String)
    read_sources [] so_far s = (ok so_far, s)
    read_sources (source ∷ sources) so_far s =
        if is_empty source.0
        then read_sources sources so_far s
        else then_call (read_source source so_far s) (λ x. read_sources sources x)

    abbrev pub egress_sources : List Source
    egress_sources =
        let (ca_name, (cert_key, key_key)) = get_egress_ca_source ha in
        (ca_name, some (cert_key ∷ []))
        ∷ (get_egress_secret_name ha, none)
        ∷ (get_credentials_secret_name ha.spec.egress, none)
        ∷ []

    abbrev pub summed : Result (List String × String) → Result (List String × String)
    summed (ok (names, text)) = ok (names, hash_text text)
    summed (err e) = err e

    unfoldable pub egress_pod_inputs : Call W (List String × String)
    egress_pod_inputs s = let (r, s') = read_sources egress_sources ([], "") s in (summed r, s')

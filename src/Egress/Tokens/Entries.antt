-- ===== src/Egress/Tokens/Entries.antt =====
-- What the two loops that fill the Secret leave at each key.
use hermes_agent_operator.Prelude.{
  String, false, some, List, [], ◌∷◌, ◌++◌, ◌≡◌, ◌≢◌, refl, sym, ◌∙◌, arith, eq_iff, All,
  All-append_left, All-append_right, All-imp, StringMap, lookup, insert, lookup-insert, contains,
}
use hermes_agent_operator.Api.Egress.{EgressCredential, env_names}
use hermes_agent_operator.Egress.Claims.Laws.{IsDistinct, all_names}
use hermes_agent_operator.Egress.Proxy.{token_of}
use hermes_agent_operator.Egress.Tokens.{put_names, put_tokens}

-- None of the names is `j`.
abbrev pub Avoids : String → List String → Type 0
Avoids j ns = All (λ n. n ≢ j) ns

pub Avoids-contains : (j : String) (ns : List String) → contains ns j ≡ false → Avoids j ns
Avoids-contains j [] h = tt
Avoids-contains j (n ∷ ns) h =
    (λ e. ground (arith, eq_iff n j, e), Avoids-contains j ns (ground arith))

put_names-other :
    (t : String) (ns : List String) (m : StringMap String) (j : String)
    → Avoids j ns
    → lookup (put_names t ns m) j ≡ lookup m j
put_names-other t [] m j h = refl
put_names-other t (n ∷ ns) m j h =
    put_names-other t ns (insert m n t) j h.1
    ∙ ground (arith, lookup-insert m n j t, eq_iff n j, h.0)

pub put_names-there :
    (t : String) (ns : List String) (m : StringMap String) (j : String)
    → lookup m j ≡ some t
    → lookup (put_names t ns m) j ≡ some t
put_names-there t [] m j h = h
put_names-there t (n ∷ ns) m j h =
    put_names-there t ns (insert m n t) j (ground (arith, lookup-insert m n j t, eq_iff n j, h))

-- Each of the names has the value.
pub put_names-own :
    (t : String) (ns : List String) (m : StringMap String)
    → All (λ n. lookup (put_names t ns m) n ≡ some t) ns
put_names-own t [] m = tt
put_names-own t (n ∷ ns) m = (
  put_names-there t ns (insert m n t) n (ground (arith, lookup-insert m n n t, eq_iff n n)),
  put_names-own t ns (insert m n t),
)

pub put_tokens-other :
    (tokens : StringMap String) (creds : List EgressCredential) (m : StringMap String) (j : String)
    → Avoids j (all_names creds)
    → lookup (put_tokens tokens creds m) j ≡ lookup m j
put_tokens-other tokens [] m j h = refl
put_tokens-other tokens (c ∷ cs) m j h =
    put_tokens-other tokens cs _ j
      (All-append_right (λ n. n ≢ j) (env_names c.secret) (all_names cs) h)
    ∙ put_names-other (token_of tokens c) (env_names c.secret) m j
        (All-append_left (λ n. n ≢ j) (env_names c.secret) (all_names cs) h)

-- Each name of the credential, aliases included, has its token.
abbrev pub HasToken : StringMap String → StringMap String → EgressCredential → Type 0
HasToken contents tokens c =
    All (λ n. lookup contents n ≡ some (token_of tokens c)) (env_names c.secret)

pub IsDistinct-right : (xs ys : List String) → IsDistinct (xs ++ ys) → IsDistinct ys
IsDistinct-right [] ys h = h
IsDistinct-right (x ∷ xs) ys h = IsDistinct-right xs ys h.1

All-swap :
    {A B : Type 0} (P : A → B → Type 0) (xs : List A) (ys : List B)
    → All (λ x. All (P x) ys) xs
    → All (λ y. All (λ x. P x y) xs) ys
All-swap P xs [] h = tt
All-swap P xs (y ∷ ys) h = (
  All-imp (λ x. All (P x) (y ∷ ys)) (λ x. P x y) xs (λ x k. k.0) h,
  All-swap P xs ys (All-imp (λ x. All (P x) (y ∷ ys)) (λ x. All (P x) ys) xs (λ x k. k.1) h),
)

-- Names in front are none of those behind.
pub IsDistinct-apart : (xs ys : List String) → IsDistinct (xs ++ ys) → All (λ x. Avoids x ys) xs
IsDistinct-apart [] ys h = tt
IsDistinct-apart (x ∷ xs) ys h = (
  All-imp (λ m. x ≢ m) (λ n. n ≢ x) ys (λ m k e. k (sym e))
      (All-append_right (λ m. x ≢ m) xs ys h.0),
  IsDistinct-apart xs ys h.1,
)

kept_later :
    (tokens : StringMap String) (t : String) (cs : List EgressCredential) (m : StringMap String)
    (ns : List String)
    → All (λ n. lookup m n ≡ some t) ns
    → All (λ n. Avoids n (all_names cs)) ns
    → All (λ n. lookup (put_tokens tokens cs m) n ≡ some t) ns
kept_later tokens t cs m [] h k = tt
kept_later tokens t cs m (n ∷ ns) h k =
    (put_tokens-other tokens cs m n k.0 ∙ h.0, kept_later tokens t cs m ns h.1 k.1)

-- Where no two credentials share a name, each finds its own token under each of its names.
pub put_tokens-HasToken :
    (tokens : StringMap String) (creds : List EgressCredential) (m : StringMap String)
    → IsDistinct (all_names creds)
    → All (HasToken (put_tokens tokens creds m) tokens) creds
put_tokens-HasToken tokens [] m h = tt
put_tokens-HasToken tokens (c ∷ cs) m h = (
  kept_later tokens (token_of tokens c) cs _ (env_names c.secret)
      (put_names-own (token_of tokens c) (env_names c.secret) m)
      (IsDistinct-apart (env_names c.secret) (all_names cs) h),
  put_tokens-HasToken tokens cs _ (IsDistinct-right (env_names c.secret) (all_names cs) h),
)

-- ===== src/Egress/Mint.antt =====
-- The proxy tokens' text (mintEgressProxyToken, internal/usecase/hermesagent_egress_secret.go).
use Prim.Native.Char.{Char, code}
use Prim.Native.String.{len}
use text.Mathlib.TextPositions.{len-append}
use text.Mathlib.Text.{starts_with}
use hermes_agent_operator.Prelude.{
  ℕ, zero, suc, String, ◌⧺◌, ◌==◌, Option, none, some, List, [], ◌∷◌, get_or, if◌then◌else◌, ◌≡◌,
  false, is_empty, Bool-cases, inl, inr, eq_iff, arith, ap,
}

abbrev letters : List (ℕ × Char)
letters =
    (b'A', "a")
    ∷ (b'B', "b")
    ∷ (b'C', "c")
    ∷ (b'D', "d")
    ∷ (b'E', "e")
    ∷ (b'F', "f")
    ∷ (b'G', "g")
    ∷ (b'H', "h")
    ∷ (b'I', "i")
    ∷ (b'J', "j")
    ∷ (b'K', "k")
    ∷ (b'L', "l")
    ∷ (b'M', "m")
    ∷ (b'N', "n")
    ∷ (b'O', "o")
    ∷ (b'P', "p")
    ∷ (b'Q', "q")
    ∷ (b'R', "r")
    ∷ (b'S', "s")
    ∷ (b'T', "t")
    ∷ (b'U', "u")
    ∷ (b'V', "v")
    ∷ (b'W', "w")
    ∷ (b'X', "x")
    ∷ (b'Y', "y")
    ∷ (b'Z', "z")
    ∷ []

abbrev lower_in : List (ℕ × Char) → ℕ → Option Char
lower_in [] n = none
lower_in ((m, c) ∷ rest) n = let later = lower_in rest n in if m == n then some c else later

-- `strings.ToLower`, for the ASCII letters that the name of an env var has.
abbrev pub to_lower : String → String
to_lower String.[] = ""
to_lower (String.◌∷◌ c s) = String.◌∷◌ (get_or (lower_in letters (code c)) c) (to_lower s)

abbrev pub api_key_suffix : String
api_key_suffix = "_api_key"

-- `strings.ReplaceAll(s, "_api_key", "")`: `skip` more characters belong to a match.
abbrev pub without_api_key : ℕ → String → String
without_api_key skip String.[] = ""
without_api_key (suc skip) (String.◌∷◌ c s) = without_api_key skip s
without_api_key zero (String.◌∷◌ c s) =
    let matched = without_api_key 7 s in
    let kept = without_api_key 0 s in
    if starts_with (String.◌∷◌ c s) api_key_suffix then matched else String.◌∷◌ c kept

-- `fmt.Sprintf("%s-%x", prefix, raw)`.
unfoldable pub egress_proxy_token : String → String → String
egress_proxy_token env_name raw = without_api_key 0 (to_lower env_name) ⧺ ("-" ⧺ raw)

-- A token has at least its dash.
pub egress_proxy_token-full :
    (env_name raw : String) → is_empty (egress_proxy_token env_name raw) ≡ false
unfolding egress_proxy_token
egress_proxy_token-full env_name raw =
    let prefix = without_api_key 0 (to_lower env_name) in
    elim (Bool-cases (is_empty (prefix ⧺ ("-" ⧺ raw)))) [
      | inl e ↦
          let nothing : prefix ⧺ ("-" ⧺ raw) ≡ "" = (eq_iff (prefix ⧺ ("-" ⧺ raw)) "").0 e in
          let front = len-append prefix ("-" ⧺ raw) in
          let back = len-append "-" raw in absurd (omega (arith, front, back, ap len nothing))
      | inr e ↦ e
    ]

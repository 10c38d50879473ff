-- ===== src/HermesConfigMap/Paths.antt =====
-- The keys of the workspace files, and how the Pod reads their paths back
-- (internal/usecase/hermesagent_statefulset_hermes_scripts.go).
use Prim.Native.Char.{Char, code}
use hermes_agent_operator.Prelude.{
  ℕ, zero, suc, String, ◌==◌, Bool, true, false, not, ◌&&◌, ◌||◌, ◌≡◌, refl, ap, sym, ◌∙◌, arith,
  same_code, Bool-cases, inl, inr, if◌then◌else◌,
}
use hermes_agent_operator.HermesConfigMap.Data.{flattened}

abbrev begins : ℕ → String → Bool
begins n String.[] = false
begins n (String.◌∷◌ c s) = code c == n

abbrev pub slash : Char
slash = "/"

-- `sed 's/--/\//g'`: `skip` more characters belong to a match.
abbrev pub unflattened : ℕ → String → String
unflattened skip String.[] = ""
unflattened (suc skip) (String.◌∷◌ c s) = unflattened skip s
unflattened zero (String.◌∷◌ c s) =
    let matched = unflattened 1 s in
    let kept = unflattened 0 s in
    if (code c == b'-') && begins b'-' s then String.◌∷◌ slash matched else String.◌∷◌ c kept

-- No dash of the path stands before a dash or a slash.
abbrev pub no_dash_before : String → Bool
no_dash_before String.[] = true
no_dash_before (String.◌∷◌ c s) =
    not ((code c == b'-') && (begins b'-' s || begins b'/' s)) && no_dash_before s

begins-flattened : (s : String) → begins b'-' (flattened s) ≡ begins b'-' s || begins b'/' s
begins-flattened String.[] = refl
begins-flattened (String.◌∷◌ c s) = elim (Bool-cases (code c == b'/')) [
  | inl e ↦ rw e (ground arith)
  | inr e ↦ rw e (ground arith)
]

split_plain : (a b : Bool) → not a && b ≡ true → (a ≡ false) × (b ≡ true)
split_plain a b h = (ground arith, ground arith)

-- From the key of a workspace file, the script of the init container reads back the path of the file,
-- where no dash of the path stands before a dash or a slash.
pub unflattened-flattened : (s : String) → no_dash_before s ≡ true → unflattened 0 (flattened s) ≡ s
unflattened-flattened String.[] h = refl
unflattened-flattened (String.◌∷◌ c s) h =
    let (apart, plain) = split_plain _ (no_dash_before s) h in
    let rest : unflattened 0 (flattened s) ≡ s = unflattened-flattened s plain in
    elim (Bool-cases (code c == b'/')) [
      | inl e ↦ rw e (
          ap (λ x. String.◌∷◌ slash x) rest
          ∙ ap (λ (d : Char). String.◌∷◌ d s) (sym (same_code c slash e)))
      | inr e ↦ rw e (rw (begins-flattened s) (rw apart (ap (λ x. String.◌∷◌ c x) rest)))
    ]

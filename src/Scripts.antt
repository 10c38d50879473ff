-- ===== src/Scripts.antt =====
-- The shell scripts of the init containers
-- (internal/usecase/hermesagent_statefulset_hermes_scripts.go): how they are put together. A script is
-- the text of its lines; `q` stands for fmt's verb %q.
pub mod Words
mod Split
pub mod Sources
pub mod Files
pub mod Tools
pub mod Packages
pub mod Profiles
pub mod Crons
mod Examples
use hermes_agent_operator.Prelude.{ℕ, ◌+◌, String, ◌⧺◌, List, [], ◌∷◌, length, join, decimal}

-- Each line, and a line break.
abbrev pub script : List String → String
script [] = ""
script (l ∷ ls) = l ⧺ ("\n" ⧺ script ls)

-- Of the operator, in the data volume.
abbrev pub manifest_dir : String → String
manifest_dir profile = "$HERMES_HOME/.hermes-agent-operator/profiles/" ⧺ profile

abbrev pub case_pattern : List String → String
case_pattern names = "\"" ⧺ (join "\"|\"" names ⧺ "\"")

abbrev pub number_steps : ℕ → ℕ → List String → String
number_steps i n [] = ""
number_steps i n (step ∷ steps) =
    script (("echo '==> Step " ⧺ (decimal i ⧺ ("/" ⧺ (decimal n ⧺ "'")))) ∷ "(" ∷ step ∷ ")" ∷ [])
    ⧺ number_steps (i + 1) n steps

-- Each step in a subshell of its own.
unfoldable pub combine_init_steps : List String → String
combine_init_steps steps = number_steps 1 (length steps) steps

-- ===== src/Scripts/Sources.antt =====
-- The names that are read off an identifier, a path or a git URL
-- (internal/usecase/hermesagent_statefulset_hermes_scripts.go).
use Prim.Native.Char.{code}
use hermes_agent_operator.Prelude.{
  ℕ, String, ◌⧺◌, ◌==◌, Bool, true, false, Option, none, some, ◌&&◌, ◌||◌, leb, str_eq, is_empty,
  if_some, if◌then◌else◌,
}
use hermes_agent_operator.Api.Hermes.{HermesSkill}

-- `strings.TrimRight(s, "/")`.
abbrev pub trim_slashes : String → String
trim_slashes String.[] = ""
trim_slashes (String.◌∷◌ c s) =
    let rest = trim_slashes s in if is_empty rest && code c == b'/' then "" else String.◌∷◌ c rest

-- `strings.TrimSuffix(s, suffix)`.
abbrev pub trim_suffix : String → String → String
trim_suffix suffix String.[] = ""
trim_suffix suffix (String.◌∷◌ c s) =
    let rest = trim_suffix suffix s in
    if str_eq (String.◌∷◌ c s) suffix then "" else String.◌∷◌ c rest

abbrev pub has_slash : String → Bool
has_slash String.[] = false
has_slash (String.◌∷◌ c s) = code c == b'/' || has_slash s

-- What follows the last slash, all where there is none.
abbrev pub last_part : String → String
last_part String.[] = ""
last_part (String.◌∷◌ c s) =
    let rest = last_part s in
    if has_slash s then rest else if code c == b'/' then s else String.◌∷◌ c s

unfoldable pub plugin_dir_name : String → String
plugin_dir_name identifier = last_part (trim_slashes (trim_suffix ".git" (trim_slashes identifier)))

unfoldable pub skill_name : HermesSkill → String
skill_name s = if is_empty s.name then trim_suffix ".md" (last_part s.identifier) else s.name

-- `path.Base`.
unfoldable pub path_base : String → String
path_base s =
    if is_empty s
    then "."
    else if is_empty (trim_slashes s)
    then "/"
    else last_part (trim_slashes s)

-- What follows a prefix, if it is there.
abbrev pub after : String → String → Option String
after String.[] s = some s
after (String.◌∷◌ c prefix) String.[] = none
after (String.◌∷◌ c prefix) (String.◌∷◌ d s) =
    let rest = after prefix s in if code c == code d then rest else none

-- A character of `[\w.-]`.
abbrev pub is_name_code : ℕ → Bool
is_name_code n =
    (leb b'a' n && leb n b'z')
    || ((leb b'A' n && leb n b'Z')
        || ((leb b'0' n && leb n b'9') || (n == b'_' || (n == b'.' || n == b'-'))))

-- `[\w.-]+/[\w.-]+/?`: the owner and the repository, each empty so far or not, and the end.
pub data Part : Type 0 where
  owner repository : Bool → Part
  closed : Part

abbrev pub accepted : Part → Bool
accepted (owner started) = false
accepted (repository started) = started
accepted closed = true

abbrev pub next_part : Part → ℕ → Option Part
next_part (owner started) n =
    if is_name_code n
    then some (owner true)
    else if started && n == b'/'
    then some (repository false)
    else none
next_part (repository started) n =
    if is_name_code n
    then some (repository true)
    else if started && n == b'/'
    then some closed
    else none
next_part closed n = none

abbrev pub matches_parts : Part → String → Bool
matches_parts part String.[] = accepted part
matches_parts part (String.◌∷◌ c s) =
    if_some (next_part part (code c)) (λ next. matches_parts next s) false

unfoldable pub is_github_shorthand : String → Bool
is_github_shorthand source =
    if_some (after "github.com/" source) (λ rest. matches_parts (owner false) rest) false

unfoldable pub git_clone_url : String → String
git_clone_url source =
    if is_github_shorthand source then "https://" ⧺ trim_slashes source else source

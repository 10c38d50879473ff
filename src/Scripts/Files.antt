-- ===== src/Scripts/Files.antt =====
-- The scripts that write a profile's config.yaml, workspace files and .env.
use hermes_agent_operator.Prelude.{
  String, ◌⧺◌, List, [], ◌∷◌, StringMap, lookup, keys, get_or, is_empty, if◌then◌else◌,
}
use hermes_agent_operator.Scripts.{script, manifest_dir}
use hermes_agent_operator.Workload.Inputs.{sort_strings}

abbrev pub egress_dot_env_begin : String
egress_dot_env_begin = "# BEGIN hermes-agent-operator egress"

abbrev pub egress_dot_env_end : String
egress_dot_env_end = "# END hermes-agent-operator egress"

abbrev pub egress_dot_env_files : String
egress_dot_env_files = "\"$HERMES_HOME/.env\" \"$HERMES_HOME\"/profiles/*/.env"

unfoldable pub build_egress_dot_env_strip_script : String
build_egress_dot_env_strip_script = script (
    "set -eu"
    ∷ ("for f in " ⧺ (egress_dot_env_files ⧺ "; do"))
    ∷ "  [ -f \"$f\" ] || continue"
    ∷ ("  sed -i '/^" ⧺ (egress_dot_env_begin ⧺ ("$/,/^" ⧺ (egress_dot_env_end ⧺ "$/d' \"$f\""))))
    ∷ "done"
    ∷ [])

-- The lines of the env, by name.
abbrev pub env_lines : StringMap String → List String → String
env_lines env [] = ""
env_lines env (k ∷ ks) = (k ⧺ ("=" ⧺ (get_or (lookup env k) "" ⧺ "\n"))) ⧺ env_lines env ks

abbrev pub env_block : StringMap String → String
env_block env = env_lines env (sort_strings (keys env))

unfoldable pub build_egress_dot_env_append_script : StringMap String → String
build_egress_dot_env_append_script env = script (
    "set -eu"
    ∷ ("for f in " ⧺ (egress_dot_env_files ⧺ "; do"))
    ∷ "  [ -f \"$f\" ] || continue"
    ∷ ("  sed -i '/^" ⧺ (egress_dot_env_begin ⧺ ("$/,/^" ⧺ (egress_dot_env_end ⧺ "$/d' \"$f\""))))
    ∷ "  if [ -n \"$(tail -c 1 \"$f\")\" ]; then echo >> \"$f\"; fi"
    ∷ "  cat >> \"$f\" << 'EGRESS_EOF'"
    ∷ egress_dot_env_begin
    ∷ ((env_block env) ⧺ egress_dot_env_end)
    ∷ "EGRESS_EOF"
    ∷ "  echo \"Added the egress proxy env to $f\""
    ∷ "done"
    ∷ [])

module _ (q : String → String) where
  unfoldable pub build_config_script : String → String
  build_config_script profile =
      let bootstrap_key = "profile." ⧺ (profile ⧺ ".config.yaml") in
      script (
        "set -eu"
        ∷ "mkdir -p \"$HERMES_HOME/home\""
        ∷ ("if [ -f \"/bootstrap/" ⧺ (bootstrap_key ⧺ "\" ]; then"))
        ∷ ("  config_path=$(hermes config path -p " ⧺ ((q profile) ⧺ ")"))
        ∷ "  mkdir -p \"$(dirname \"$config_path\")\""
        ∷ ("  cp \"/bootstrap/" ⧺ (bootstrap_key ⧺ "\" \"$config_path\""))
        ∷ ("  echo \"Config written for profile " ⧺ (profile ⧺ "\""))
        ∷ "fi"
        ∷ [])

  unfoldable pub build_workspace_script : String → String
  build_workspace_script profile =
      let prefix = "profile." ⧺ (profile ⧺ ".workspace.") in
      script (
        "set -eu"
        ∷ ("MANIFEST_FILE=\"" ⧺ ((manifest_dir profile) ⧺ "/workspace-files\""))
        ∷ "UPDATED_MANIFEST=\"\""
        ∷ ("mkdir -p \"" ⧺ ((manifest_dir profile) ⧺ "\""))
        ∷ ("profile_home=$(dirname \"$(hermes config path -p " ⧺ ((q profile) ⧺ ")\")"))
        ∷ ""
        ∷ "# delete files that were previously managed but are no longer in workspace.files"
        ∷ "if [ -f \"$MANIFEST_FILE\" ]; then"
        ∷ "  while IFS= read -r managed; do"
        ∷ "    [ -z \"$managed\" ] && continue"
        ∷ ("    key=\"" ⧺ (prefix ⧺ ("$(echo \"$managed\" | sed 's|/|" ⧺ ("--" ⧺ "|g')\""))))
        ∷ "    if [ ! -f \"/bootstrap/$key\" ]; then"
        ∷ "      rm -f \"$profile_home/$managed\""
        ∷ "      echo \"Removed outdated workspace file: $managed\""
        ∷ "    fi"
        ∷ "  done < \"$MANIFEST_FILE\""
        ∷ "fi"
        ∷ ""
        ∷ ("for f in /bootstrap/" ⧺ (prefix ⧺ "*; do"))
        ∷ "  [ -f \"$f\" ] || continue"
        ∷ ("  relpath=$(basename \"$f\" | sed 's/^"
            ⧺ (prefix ⧺ ("//' | sed 's/" ⧺ ("--" ⧺ "/\\//g')"))))
        ∷ "  target=\"$profile_home/$relpath\""
        ∷ "  mkdir -p \"$(dirname \"$target\")\""
        ∷ "  cp \"$f\" \"$target\""
        ∷ "  echo \"Copied workspace file: $relpath\""
        ∷ "  UPDATED_MANIFEST=\"$UPDATED_MANIFEST$relpath"
        ∷ "\""
        ∷ "done"
        ∷ ""
        ∷ "printf '%s' \"$UPDATED_MANIFEST\" > \"$MANIFEST_FILE\""
        ∷ [])

  -- With a directory of tokens, a key that has one is passed over.
  abbrev pub skip_token_key : String → String
  skip_token_key dir =
      if is_empty dir then "" else "    if [ -f \"" ⧺ (dir ⧺ "/$key\" ]; then continue; fi\n")

  -- The loop over the mounted directories.
  abbrev pub dot_env_loops : String → List String → String
  dot_env_loops dir [] = ""
  dot_env_loops dir (path ∷ paths) =
      script (
        ("  for f in \"" ⧺ (path ⧺ "\"/*; do"))
        ∷ "    [ -f \"$f\" ] || continue"
        ∷ "    key=\"$(basename \"$f\")\""
        ∷ (skip_token_key dir ⧺ "    value=\"$(cat \"$f\")\"")
        ∷ "    printf '%s=%s\\n' \"$key\" \"$value\""
        ∷ "  done"
        ∷ [])
      ⧺ dot_env_loops dir paths

  abbrev pub token_loop : String → String
  token_loop dir =
      if is_empty dir
      then ""
      else script (
          ("  for f in \"" ⧺ (dir ⧺ "\"/*; do"))
          ∷ "    [ -f \"$f\" ] || continue"
          ∷ "    key=\"$(basename \"$f\")\""
          ∷ "    case \"$key\" in *[!A-Za-z0-9_]*) continue ;; esac"
          ∷ "    printf '%s=%s\\n' \"$key\" \"$(cat \"$f\")\""
          ∷ "  done"
          ∷ [])

  unfoldable pub build_dot_env_script : String → String → List String → String
  build_dot_env_script profile dir paths =
      script ("set -eu" ∷ "{" ∷ [])
      ⧺ ((dot_env_loops dir paths ⧺ token_loop dir)
          ⧺ script (
              ("} > \"$(hermes config env-path -p " ⧺ ((q profile) ⧺ ")\""))
              ∷ ("echo \"Generated .env for profile " ⧺ (profile ⧺ "\""))
              ∷ []))

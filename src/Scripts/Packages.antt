-- ===== src/Scripts/Packages.antt =====
-- The scripts that install Python and npm packages when their list has changed.
use hermes_agent_operator.Prelude.{String, ◌⧺◌, Option, none, some, List, [], ◌∷◌, map, join}
use hermes_agent_operator.Api.Hermes.{HermesPipPackages, HermesNpmPackages}
use hermes_agent_operator.Scripts.{script}

module _ (q : String → String) where
  abbrev pub extra_words : List String → String
  extra_words [] = ""
  extra_words (a ∷ as') = " " ⧺ join " " (map q (a ∷ as'))

  abbrev pub install_python : HermesPipPackages → List String → String
  install_python cfg [] = "echo 'No Python packages configured'"
  install_python cfg (p ∷ ps) =
      let command : String =
        "uv pip install --python /opt/hermes/.venv/bin/python --target \"$TARGET\""
        ⧺ (extra_words cfg.extra_args ⧺ (" " ⧺ join " " (map q (p ∷ ps)))) in
      script (
        "set -eu"
        ∷ "TARGET=\"$HERMES_HOME/.python-packages\""
        ∷ "MANIFEST=\"$HERMES_HOME/.hermes-agent-operator/python-packages\""
        ∷ "mkdir -p \"$HERMES_HOME/.hermes-agent-operator\""
        ∷ ""
        ∷ "DESIRED=$(cat <<'PKGS_EOF'"
        ∷ (join "\n" (p ∷ ps))
        ∷ "PKGS_EOF"
        ∷ ")"
        ∷ ""
        ∷ "if [ -f \"$MANIFEST\" ] && [ \"$(cat \"$MANIFEST\")\" = \"$DESIRED\" ]; then"
        ∷ "  echo \"Python packages up-to-date, skipping\""
        ∷ "  exit 0"
        ∷ "fi"
        ∷ ""
        ∷ "rm -rf \"$TARGET\""
        ∷ "mkdir -p \"$TARGET\""
        ∷ command
        ∷ ""
        ∷ "printf '%s' \"$DESIRED\" > \"$MANIFEST\""
        ∷ [])

  unfoldable pub build_python_packages_script : Option HermesPipPackages → String
  build_python_packages_script none = "echo 'No Python packages configured'"
  build_python_packages_script (some cfg) = install_python cfg cfg.install

  abbrev pub install_npm : List String → String
  install_npm [] = "echo 'No npm packages configured'"
  install_npm (p ∷ ps) =
      let command : String = "npm install -g --prefix \"$TARGET\" " ⧺ join " " (map q (p ∷ ps)) in
      script (
        "set -eu"
        ∷ "TARGET=\"$HERMES_HOME/.npm-packages\""
        ∷ "MANIFEST=\"$HERMES_HOME/.hermes-agent-operator/npm-packages\""
        ∷ "mkdir -p \"$HERMES_HOME/.hermes-agent-operator\""
        ∷ ""
        ∷ "DESIRED=$(cat <<'PKGS_EOF'"
        ∷ (join "\n" (p ∷ ps))
        ∷ "PKGS_EOF"
        ∷ ")"
        ∷ ""
        ∷ "if [ -f \"$MANIFEST\" ] && [ \"$(cat \"$MANIFEST\")\" = \"$DESIRED\" ]; then"
        ∷ "  echo \"npm packages up-to-date, skipping\""
        ∷ "  exit 0"
        ∷ "fi"
        ∷ ""
        ∷ "rm -rf \"$TARGET\""
        ∷ "mkdir -p \"$TARGET\""
        ∷ command
        ∷ ""
        ∷ "printf '%s' \"$DESIRED\" > \"$MANIFEST\""
        ∷ [])

  unfoldable pub build_npm_packages_script : Option HermesNpmPackages → String
  build_npm_packages_script none = "echo 'No npm packages configured'"
  build_npm_packages_script (some cfg) = install_npm cfg.install

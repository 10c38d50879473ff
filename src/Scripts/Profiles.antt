-- ===== src/Scripts/Profiles.antt =====
-- The scripts that remove, create and install the named profiles.
use hermes_agent_operator.Prelude.{
  String, ◌⧺◌, Bool, List, [], ◌∷◌, StringMap, keys, is_empty, join, if◌then◌else◌,
}
use hermes_agent_operator.Api.Hermes.{HermesProfile, HermesProfileDistribution}
use hermes_agent_operator.Api.Accessors.{is_pinned, should_update_on_start}
use hermes_agent_operator.Scripts.{script, manifest_dir, case_pattern}
use hermes_agent_operator.Scripts.Sources.{git_clone_url, path_base}
use hermes_agent_operator.Workload.Inputs.{sort_strings}

unfoldable pub build_profiles_cleanup_script : StringMap HermesProfile → String
build_profiles_cleanup_script profiles =
    let names : List String = sort_strings (keys profiles) in
    script (
      "set -eu"
      ∷ "PROFILES_MANIFEST=\"$HERMES_HOME/.hermes-agent-operator/profiles-manifest\""
      ∷ "mkdir -p \"$HERMES_HOME/.hermes-agent-operator\""
      ∷ ""
      ∷ "if [ -f \"$PROFILES_MANIFEST\" ]; then"
      ∷ "  while IFS= read -r pname; do"
      ∷ "    [ -z \"$pname\" ] && continue"
      ∷ "    case \"$pname\" in"
      ∷ ("      " ⧺ ((case_pattern names) ⧺ ") ;;"))
      ∷ "      *)"
      ∷ "        hermes profile delete \"$pname\" || true"
      ∷ "        rm -rf \"$HERMES_HOME/.hermes-agent-operator/profiles/$pname\""
      ∷ "        ;;"
      ∷ "    esac"
      ∷ "  done < \"$PROFILES_MANIFEST\""
      ∷ "fi"
      ∷ ""
      ∷ "cat > \"$PROFILES_MANIFEST\" << 'PROFILES_EOF'"
      ∷ (join "\n" names)
      ∷ "PROFILES_EOF"
      ∷ [])

module _ (q : String → String) where
  unfoldable pub build_profile_creation_script : String → Bool → String
  build_profile_creation_script profile clone =
      let command : String =
        "hermes profile create "
        ⧺ (q profile ⧺ (" --no-alias" ⧺ (if clone then " --clone" else ""))) in
      script (
        "set -eu"
        ∷ (command ⧺ " || true")
        ∷ ("rm -rf \""
            ⧺ ((manifest_dir profile)
                ⧺ ("/distribution\" \"" ⧺ ((manifest_dir profile) ⧺ "/src\""))))
        ∷ ("echo \"Profile " ⧺ (profile ⧺ " ready\""))
        ∷ [])

  -- Up to the functions of the script.
  abbrev pub distribution_head : String → HermesProfileDistribution → String
  distribution_head profile dist = script (
      "set -eu"
      ∷ ("SOURCE=" ⧺ (q dist.source))
      ∷ ("CLONE_URL=" ⧺ (q (git_clone_url dist.source)))
      ∷ ("REF=" ⧺ (q dist.ref))
      ∷ ("MANIFEST=\"" ⧺ ((manifest_dir profile) ⧺ "/distribution\""))
      ∷ ("STAGED=\"" ⧺ ((manifest_dir profile) ⧺ "/src\""))
      ∷ ("PROFILE_DIR=\"$HERMES_HOME/profiles/" ⧺ (profile ⧺ "\""))
      ∷ "# A tab keeps the pair unambiguous: neither a ref nor a usable git URL holds one."
      ∷ "DESIRED=\"$SOURCE\t$REF\""
      ∷ ("mkdir -p \"" ⧺ ((manifest_dir profile) ⧺ "\""))
      ∷ ""
      ∷ "# Write the cause to the termination message, which the operator shows on"
      ∷ "# the InitFailed condition."
      ∷ "fail() {"
      ∷ "  printf '%s\\n' \"$*\" > /dev/termination-log 2>/dev/null || true"
      ∷ "  echo \"$*\" >&2"
      ∷ "  exit 1"
      ∷ "}"
      ∷ [])

  abbrev pub distribution_credentials : String → String → String
  distribution_credentials profile file =
      if is_empty file
      then ""
      else script (
          ""
          ∷ ("CREDENTIALS=" ⧺ (q file))
          ∷ ("[ -f \"$CREDENTIALS\" ] || fail \"Profile "
              ⧺ (profile
                  ⧺ (": the git credentials Secret has no key " ⧺ ((path_base file) ⧺ ".\""))))
          ∷ "export GIT_CONFIG_COUNT=1"
          ∷ "export GIT_CONFIG_KEY_0=credential.helper"
          ∷ "export GIT_CONFIG_VALUE_0=\"store --file=$CREDENTIALS\""
          ∷ [])

  abbrev pub distribution_test : String
  distribution_test = script (
      "" ∷ "# The profile's own distribution.yaml is checked too, because someone can"
      ∷ "# delete the profile by hand inside the Pod and leave the manifest behind."
      ∷ "if [ -f \"$MANIFEST\" ] && [ \"$(cat \"$MANIFEST\")\" = \"$DESIRED\" ] && [ -f \"$PROFILE_DIR/distribution.yaml\" ]; then"
      ∷ [])

  -- What is done with a profile that is there.
  abbrev pub distribution_update : String → HermesProfileDistribution → String
  distribution_update profile dist =
      if should_update_on_start dist
      then script (
          ("  hermes profile update "
            ⧺ ((q profile) ⧺ ((if dist.force_config then " --force-config" else "") ⧺ " --yes \\")))
          ∷ ("    || echo \"Profile "
              ⧺ (profile
                  ⧺ ": hermes profile update failed, so the profile stays at its installed revision. The output above says why.\" >&2"))
          ∷ [])
      else "  echo \"Profile " ⧺ (profile ⧺ " left at its installed revision\"\n")

  abbrev pub install_pinned : String → String
  install_pinned profile = script (
      "  export GIT_TERMINAL_PROMPT=0"
      ∷ "  rm -rf \"$STAGED\""
      ∷ "  if ! git clone --depth 1 --branch \"$REF\" \"$CLONE_URL\" \"$STAGED\"; then"
      ∷ "    rm -rf \"$STAGED\""
      ∷ "    mkdir -p \"$STAGED\""
      ∷ "    git -C \"$STAGED\" init -q"
      ∷ "    git -C \"$STAGED\" remote add origin \"$CLONE_URL\""
      ∷ "    git -C \"$STAGED\" fetch -q --depth 1 origin \"$REF\" \\"
      ∷ ("      || fail \"Profile "
          ⧺ (profile
              ⧺ ": could not fetch ref $REF from $SOURCE. Check that the ref exists, that the repository is reachable from the cluster, and that the operator has credentials for a private repository.\""))
      ∷ "    git -C \"$STAGED\" checkout -q FETCH_HEAD"
      ∷ "  fi"
      ∷ ("  echo \"Profile "
          ⧺ (profile ⧺ ": $REF is commit $(git -C \"$STAGED\" rev-parse HEAD)\""))
      ∷ "  rm -rf \"$STAGED/.git\""
      ∷ ("  hermes profile install \"$STAGED\" --name " ⧺ ((q profile) ⧺ " --force --yes \\"))
      ∷ ("    || fail \"Profile "
          ⧺ (profile
              ⧺ ": hermes profile install failed for $SOURCE at $REF. The output above says why; a Hermes version requirement or an unschedulable shipped cron job are the usual causes.\""))
      ∷ [])

  abbrev pub install_unpinned : String → String
  install_unpinned profile = script (
      ("  hermes profile install \"$SOURCE\" --name " ⧺ ((q profile) ⧺ " --force --yes \\"))
      ∷ ("    || fail \"Profile "
          ⧺ (profile
              ⧺ ": hermes profile install failed for $SOURCE. The output above says why; a Hermes version requirement or an unschedulable shipped cron job are the usual causes.\""))
      ∷ "  rm -rf \"$STAGED\""
      ∷ [])

  abbrev pub distribution_end : String → String
  distribution_end profile = script (
      "  printf '%s' \"$DESIRED\" > \"$MANIFEST\""
      ∷ "fi"
      ∷ ("echo \"Profile " ⧺ (profile ⧺ " ready\""))
      ∷ [])

  unfoldable pub build_profile_distribution_script :
      String → HermesProfileDistribution → String → String
  build_profile_distribution_script profile dist credentials_file =
      distribution_head profile dist
      ⧺ (distribution_credentials profile credentials_file
          ⧺ (distribution_test
              ⧺ (distribution_update profile dist
                  ⧺ ("else\n"
                      ⧺ ((if is_pinned dist
                            then install_pinned profile
                            else install_unpinned profile)
                          ⧺ distribution_end profile)))))

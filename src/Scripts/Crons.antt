-- ===== src/Scripts/Crons.antt =====
-- The scripts that create the cron jobs, and resume those that a distribution ships.
use hermes_agent_operator.Prelude.{
  String, ◌⧺◌, Bool, List, [], ◌∷◌, map, join, decimal, str_eq, if_some, if◌then◌else◌,
}
use hermes_agent_operator.Api.Hermes.{HermesCron}
use hermes_agent_operator.Scripts.{script, manifest_dir}
use hermes_agent_operator.Scripts.Words.{shell_words}
use hermes_agent_operator.Scripts.Tools.{quoted_after, each_after}

abbrev pub cron_jobs_path : String → String
cron_jobs_path profile =
    if str_eq profile "default"
    then "/cron/jobs.json"
    else "/profiles/" ⧺ (profile ⧺ "/cron/jobs.json")

unfoldable pub build_get_job_id_function : String → String
build_get_job_id_function profile = script (
    "get_job_id() {"
    ∷ "  python3 - \"$1\" <<'PY'"
    ∷ "import json, os, sys"
    ∷ ("p = os.environ.get(\"HERMES_HOME\", \"/opt/data\") + \""
        ⧺ ((cron_jobs_path profile) ⧺ "\""))
    ∷ "if not os.path.exists(p):"
    ∷ "    sys.exit(0)"
    ∷ "with open(p) as f:"
    ∷ "    data = json.load(f)"
    ∷ "ids = [j.get(\"id\", \"\") for j in data.get(\"jobs\", []) if j.get(\"name\") == sys.argv[1]]"
    ∷ "if len(ids) > 1:"
    ∷ "    print(f\"Using the first of {len(ids)} cron jobs named {sys.argv[1]}\", file=sys.stderr)"
    ∷ "if ids:"
    ∷ "    print(ids[0])"
    ∷ "PY"
    ∷ "}"
    ∷ [])

abbrev flag : Bool → String → String
flag b word = if b then word else ""

module _ (q : String → String) where
  unfoldable pub build_resume_crons_script : String → List String → List HermesCron → String
  build_resume_crons_script profile names crons =
      let declared : List String = map (λ (c : HermesCron). c.name) crons in
      script (
        "set -eu"
        ∷ ("MANIFEST=\"" ⧺ ((manifest_dir profile) ⧺ "/resumed-crons\""))
        ∷ ("mkdir -p \"" ⧺ ((manifest_dir profile) ⧺ "\""))
        ∷ ""
        ∷ (build_get_job_id_function profile)
        ∷ ("DESIRED=$(printf '%s\\n' " ⧺ ((shell_words names) ⧺ ")"))
        ∷ ("DECLARED=$(printf '%s\\n' " ⧺ ((shell_words declared) ⧺ ")"))
        ∷ ""
        ∷ "# in_list LIST NAME succeeds when NAME is a line of LIST."
        ∷ "in_list() {"
        ∷ "  case \""
        ∷ "$1"
        ∷ "\" in"
        ∷ "    *\""
        ∷ "$2"
        ∷ "\"*) return 0 ;;"
        ∷ "  esac"
        ∷ "  return 1"
        ∷ "}"
        ∷ ""
        ∷ "# Pause jobs this profile resumed before but no longer allowlists.  A job"
        ∷ "# whose pause fails stays in the manifest, so the next start tries again."
        ∷ "RETRY="
        ∷ "if [ -f \"$MANIFEST\" ]; then"
        ∷ "  while IFS= read -r name; do"
        ∷ "    [ -z \"$name\" ] && continue"
        ∷ "    in_list \"$DESIRED\" \"$name\" && continue"
        ∷ "    in_list \"$DECLARED\" \"$name\" && continue"
        ∷ "    id=$(get_job_id \"$name\")"
        ∷ "    [ -z \"$id\" ] && continue"
        ∷ ("    if hermes cron pause -p " ⧺ ((q profile) ⧺ " \"$id\"; then"))
        ∷ "      printf '%s\\n' \"Paused cron job $name\""
        ∷ "    else"
        ∷ "      printf '%s\\n' \"Could not pause cron job $name; will retry at the next start\""
        ∷ "      RETRY=\"$RETRY"
        ∷ "$name\""
        ∷ "    fi"
        ∷ "  done < \"$MANIFEST\""
        ∷ "fi"
        ∷ ""
        ∷ "# Resume the allowlisted jobs; a distribution ships its jobs paused."
        ∷ "printf '%s\\n' \"$DESIRED\" | while IFS= read -r name; do"
        ∷ "  [ -z \"$name\" ] && continue"
        ∷ "  if in_list \"$DECLARED\" \"$name\"; then"
        ∷ "    printf '%s\\n' \"Cron job $name is declared in crons; skipping\""
        ∷ "    continue"
        ∷ "  fi"
        ∷ "  id=$(get_job_id \"$name\")"
        ∷ "  if [ -z \"$id\" ]; then"
        ∷ ("    printf '%s\\n' \"No cron job named $name in profile " ⧺ (profile ⧺ "; skipping\""))
        ∷ "    continue"
        ∷ "  fi"
        ∷ ("  if hermes cron resume -p " ⧺ ((q profile) ⧺ " \"$id\"; then"))
        ∷ "    printf '%s\\n' \"Resumed cron job $name\""
        ∷ "  else"
        ∷ "    printf '%s\\n' \"Could not resume cron job $name\""
        ∷ "  fi"
        ∷ "done"
        ∷ ""
        ∷ "printf '%s\\n' \"$DESIRED\" \"$RETRY\" > \"$MANIFEST\""
        ∷ [])

  abbrev pub cron_line : String → HermesCron → String
  cron_line profile c =
      ("hermes cron create -p " ⧺ (q profile ⧺ (" --name " ⧺ q c.name)))
      ⧺ (quoted_after q " --deliver " c.deliver
          ⧺ (if_some c.repeat (λ n. " --repeat " ⧺ decimal n) ""
              ⧺ (each_after q " --skill " c.skills
                  ⧺ (quoted_after q " --script " c.script
                      ⧺ (flag c.no_agent " --no-agent"
                          ⧺ (quoted_after q " --workdir " c.workdir
                              ⧺ (quoted_after q " --monitor-script " c.monitor_script
                                  ⧺ (quoted_after q " --monitor-url " c.monitor_url
                                      ⧺ (quoted_after q " --model " c.model
                                          ⧺ (quoted_after q " --provider " c.provider
                                              ⧺ (quoted_after q " --reasoning-effort "
                                                    c.reasoning_effort
                                                  ⧺ (flag c.continuity " --continuity"
                                                      ⧺ (quoted_after q " --profile " c.profile
                                                          ⧺ ((" " ⧺ q c.schedule)
                                                            ⧺ quoted_after q " "
                                                            c.prompt))))))))))))))

  unfoldable pub build_crons_script : String → List HermesCron → String
  build_crons_script profile crons =
      let names : List String = map (λ (c : HermesCron). c.name) crons in
      let create : String = join "\n" (map (cron_line profile) crons) in
      script (
        "set -eu"
        ∷ ("MANIFEST=\"" ⧺ ((manifest_dir profile) ⧺ "/crons\""))
        ∷ ("mkdir -p \"" ⧺ ((manifest_dir profile) ⧺ "\""))
        ∷ ""
        ∷ (build_get_job_id_function profile)
        ∷ "# Remove crons present in manifest but no longer desired"
        ∷ "if [ -f \"$MANIFEST\" ]; then"
        ∷ "  while IFS= read -r name; do"
        ∷ "    [ -z \"$name\" ] && continue"
        ∷ "    id=$(get_job_id \"$name\")"
        ∷ "    [ -z \"$id\" ] && continue"
        ∷ ("    hermes cron remove -p " ⧺ ((q profile) ⧺ " \"$id\" || true"))
        ∷ "  done < \"$MANIFEST\""
        ∷ "fi"
        ∷ ""
        ∷ "# Create desired crons"
        ∷ create
        ∷ ""
        ∷ "# Update manifest"
        ∷ "cat > \"$MANIFEST\" << 'CRONS_EOF'"
        ∷ (join "\n" names)
        ∷ "CRONS_EOF"
        ∷ [])

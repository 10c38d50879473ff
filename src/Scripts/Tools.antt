-- ===== src/Scripts/Tools.antt =====
-- The scripts that install plugins, skills and bundles, and remove those of the manifest that are no longer
-- asked for.
use hermes_agent_operator.Prelude.{
  String, ◌⧺◌, Bool, true, List, [], ◌∷◌, get_or, is_empty, map, join, if◌then◌else◌,
}
use hermes_agent_operator.Api.Hermes.{HermesPlugin, HermesSkill, HermesBundle}
use hermes_agent_operator.Scripts.{script, manifest_dir, case_pattern}
use hermes_agent_operator.Scripts.Sources.{plugin_dir_name, skill_name}

abbrev flag : Bool → String → String
flag b word = if b then word else ""

abbrev word_after : String → String → String
word_after option value = if is_empty value then "" else option ⧺ value

module _ (q : String → String) where
  abbrev pub quoted_after : String → String → String
  quoted_after option value = if is_empty value then "" else option ⧺ q value

  abbrev pub each_after : String → List String → String
  each_after option [] = ""
  each_after option (v ∷ vs) = (option ⧺ q v) ⧺ each_after option vs

  abbrev pub plugin_line : String → HermesPlugin → String
  plugin_line profile p =
      ("hermes plugins install -p " ⧺ (q profile ⧺ " --force "))
      ⧺ ((if get_or p.enable true then "--enable" else "--no-enable")
          ⧺ (quoted_after " --ref " p.ref ⧺ (" " ⧺ q p.identifier)))

  unfoldable pub build_plugins_script : String → List HermesPlugin → String
  build_plugins_script profile plugins =
      let names : List String = map (λ (p : HermesPlugin). plugin_dir_name p.identifier) plugins in
      let install : String = join "\n" (map (plugin_line profile) plugins) in
      script (
        "set -eu"
        ∷ ("MANIFEST=\"" ⧺ ((manifest_dir profile) ⧺ "/plugins\""))
        ∷ ("mkdir -p \"" ⧺ ((manifest_dir profile) ⧺ "\""))
        ∷ ""
        ∷ "# Remove plugins present in manifest but no longer desired"
        ∷ "if [ -f \"$MANIFEST\" ]; then"
        ∷ "  while IFS= read -r name; do"
        ∷ "    [ -z \"$name\" ] && continue"
        ∷ "    case \"$name\" in"
        ∷ ("      " ⧺ ((case_pattern names) ⧺ ") ;;"))
        ∷ ("      *) hermes plugins remove -p " ⧺ ((q profile) ⧺ " \"$name\" || true ;;"))
        ∷ "    esac"
        ∷ "  done < \"$MANIFEST\""
        ∷ "fi"
        ∷ ""
        ∷ "# Install desired plugins"
        ∷ install
        ∷ ""
        ∷ "# Update manifest"
        ∷ "cat > \"$MANIFEST\" << 'PLUGINS_EOF'"
        ∷ (join "\n" names)
        ∷ "PLUGINS_EOF"
        ∷ [])

  abbrev pub skill_line : String → HermesSkill → String
  skill_line profile s =
      ("hermes skills install -p " ⧺ (q profile ⧺ " --yes"))
      ⧺ (word_after " --category " s.category
          ⧺ (word_after " --name " s.name ⧺ (flag s.force " --force" ⧺ (" " ⧺ s.identifier))))

  abbrev pub skill_update_line : String → HermesSkill → String
  skill_update_line profile s =
      "hermes skills update -p " ⧺ (q profile ⧺ (" " ⧺ (skill_name s ⧺ " || true")))

  unfoldable pub build_skills_script : String → List HermesSkill → String
  build_skills_script profile skills =
      let names : List String = map skill_name skills in
      let install : String = join "\n" (map (skill_line profile) skills) in
      let update : String = join "\n" (map (skill_update_line profile) skills) in
      script (
        "set -eu"
        ∷ ("MANIFEST=\"" ⧺ ((manifest_dir profile) ⧺ "/skills\""))
        ∷ ("mkdir -p \"" ⧺ ((manifest_dir profile) ⧺ "\""))
        ∷ ""
        ∷ "# Remove skills present in manifest but no longer desired"
        ∷ "if [ -f \"$MANIFEST\" ]; then"
        ∷ "  while IFS= read -r name; do"
        ∷ "    [ -z \"$name\" ] && continue"
        ∷ "    case \"$name\" in"
        ∷ ("      " ⧺ ((case_pattern names) ⧺ ") ;;"))
        ∷ ("      *) hermes skills uninstall -p " ⧺ ((q profile) ⧺ " \"$name\" || true ;;"))
        ∷ "    esac"
        ∷ "  done < \"$MANIFEST\""
        ∷ "fi"
        ∷ ""
        ∷ "# Install desired skills"
        ∷ install
        ∷ ""
        ∷ "# Update installed skills to the latest version available"
        ∷ update
        ∷ ""
        ∷ "# Update manifest"
        ∷ "cat > \"$MANIFEST\" << 'SKILLS_EOF'"
        ∷ (join "\n" names)
        ∷ "SKILLS_EOF"
        ∷ [])

  abbrev pub bundle_line : String → HermesBundle → String
  bundle_line profile b =
      ("hermes bundles create -p " ⧺ q profile)
      ⧺ (each_after " --skill " b.skills
          ⧺ (quoted_after " --description " b.description
              ⧺ (quoted_after " --instruction " b.instruction
                  ⧺ (flag b.force " --force" ⧺ (" " ⧺ (q b.name ⧺ " || true"))))))

  unfoldable pub build_bundles_script : String → List HermesBundle → String
  build_bundles_script profile bundles =
      let names : List String = map (λ (b : HermesBundle). b.name) bundles in
      let create : String = join "\n" (map (bundle_line profile) bundles) in
      script (
        "set -eu"
        ∷ ("MANIFEST=\"" ⧺ ((manifest_dir profile) ⧺ "/bundles\""))
        ∷ ("mkdir -p \"" ⧺ ((manifest_dir profile) ⧺ "\""))
        ∷ ""
        ∷ "# Remove bundles present in manifest but no longer desired"
        ∷ "if [ -f \"$MANIFEST\" ]; then"
        ∷ "  while IFS= read -r name; do"
        ∷ "    [ -z \"$name\" ] && continue"
        ∷ "    case \"$name\" in"
        ∷ ("      " ⧺ ((case_pattern names) ⧺ ") ;;"))
        ∷ ("      *) hermes bundles delete -p " ⧺ ((q profile) ⧺ " \"$name\" || true ;;"))
        ∷ "    esac"
        ∷ "  done < \"$MANIFEST\""
        ∷ "fi"
        ∷ ""
        ∷ "# Create desired bundles"
        ∷ create
        ∷ ""
        ∷ "# Update manifest"
        ∷ "cat > \"$MANIFEST\" << 'BUNDLES_EOF'"
        ∷ (join "\n" names)
        ∷ "BUNDLES_EOF"
        ∷ [])

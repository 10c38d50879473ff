-- ===== src/Scripts/Words.antt =====
-- The words of a shell command (shellWords,
-- internal/usecase/hermesagent_statefulset_hermes_scripts.go).
use Prim.Native.Char.{Char, code}
use hermes_agent_operator.Prelude.{String, ◌==◌, List, [], ◌∷◌, if◌then◌else◌}

abbrev pub single_quote : Char
single_quote = "'"

abbrev pub backslash : Char
backslash = "\\"

abbrev pub blank : Char
blank = " "

-- `strings.ReplaceAll(v, "'", `'\''`)`, and the closing quote and what follows behind it.
abbrev pub quoted_body : String → String → String
quoted_body String.[] rest = String.◌∷◌ single_quote rest
quoted_body (String.◌∷◌ c s) rest =
    let more = quoted_body s rest in
    if code c == b'\''
    then String.◌∷◌ single_quote
        (String.◌∷◌ backslash (String.◌∷◌ single_quote (String.◌∷◌ single_quote more)))
    else String.◌∷◌ c more

-- The words, with a blank between two, and what follows.
abbrev pub words_before : List String → String → String
words_before [] rest = rest
words_before (v ∷ []) rest = String.◌∷◌ single_quote (quoted_body v rest)
words_before (v ∷ w ∷ ws) rest =
    String.◌∷◌ single_quote (quoted_body v (String.◌∷◌ blank (words_before (w ∷ ws) rest)))

unfoldable pub shell_words : List String → String
shell_words values = words_before values ""

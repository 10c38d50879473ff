-- ===== src/Scripts/Split.antt =====
-- The words of a command (shellWords, internal/usecase/hermesagent_statefulset_hermes_scripts.go) as a
-- POSIX shell splits them, where they need no expansion.
use Prim.Native.Char.{Char, code}
use hermes_agent_operator.Prelude.{
  String, ◌==◌, Option, none, some, List, [], ◌∷◌, ◌≡◌, ◌∙◌, ap, refl, sym, Bool-cases, inl, inr,
  same_code, if◌then◌else◌,
}
use hermes_agent_operator.Scripts.Words.{
  single_quote, blank, quoted_body, words_before, shell_words,
}

-- Between two words; in a word; in it, between two single quotes; in it, behind a backslash.
pub data Place : Type 0 where
  between in_word in_quotes behind_backslash : Place

-- A character that belongs to the first word.
abbrev pub push : Char → Option (List String) → Option (List String)
push c none = none
push c (some []) = none
push c (some (w ∷ ws)) = some (String.◌∷◌ c w ∷ ws)

-- The end of a word.
abbrev pub next_word : Option (List String) → Option (List String)
next_word none = none
next_word (some ws) = some ("" ∷ ws)

-- The words; in a word, the rest of it first. None where a quote or a backslash is open at the end.
abbrev pub split_words : Place → String → Option (List String)
split_words between String.[] = some []
split_words in_word String.[] = some ("" ∷ [])
split_words in_quotes String.[] = none
split_words behind_backslash String.[] = none
split_words between (String.◌∷◌ c s) =
    let outside = split_words between s in
    let quoted = split_words in_quotes s in
    let escaped = split_words behind_backslash s in
    let more = split_words in_word s in
    if code c == b' '
    then outside
    else if code c == b'\''
    then quoted
    else if code c == b'\\'
    then escaped
    else push c more
split_words in_word (String.◌∷◌ c s) =
    let outside = split_words between s in
    let quoted = split_words in_quotes s in
    let escaped = split_words behind_backslash s in
    let more = split_words in_word s in
    if code c == b' '
    then next_word outside
    else if code c == b'\''
    then quoted
    else if code c == b'\\'
    then escaped
    else push c more
split_words in_quotes (String.◌∷◌ c s) =
    let more = split_words in_word s in
    let quoted = split_words in_quotes s in if code c == b'\'' then more else push c quoted
split_words behind_backslash (String.◌∷◌ c s) = push c (split_words in_word s)

push_all : String → Option (List String) → Option (List String)
push_all String.[] r = r
push_all (String.◌∷◌ c s) r = push c (push_all s r)

push_all_lem : (v : String) (ws : List String) → push_all v (some ("" ∷ ws)) ≡ some (v ∷ ws)
unfolding push_all
push_all_lem String.[] ws = refl
push_all_lem (String.◌∷◌ c v) ws = ap (push c) (push_all_lem v ws)

split-quoted_body :
    (v rest : String)
    → split_words in_quotes (quoted_body v rest) ≡ push_all v (split_words in_word rest)
unfolding push_all
split-quoted_body String.[] rest = refl
split-quoted_body (String.◌∷◌ c v) rest = elim (Bool-cases (code c == b'\'')) [
  | inl e ↦ rw e (
      ap (push single_quote) (split-quoted_body v rest)
      ∙ ap (λ (d : Char). push d (push_all v (split_words in_word rest)))
          (sym (same_code c single_quote e)))
  | inr e ↦ rw (e, e) (ap (push c) (split-quoted_body v rest))
]

split-words_before :
    (values : List String) → split_words between (words_before values "") ≡ some values
split-words_before [] = refl
split-words_before (v ∷ []) = split-quoted_body v "" ∙ push_all_lem v []
split-words_before (v ∷ w ∷ ws) =
    split-quoted_body v (String.◌∷◌ blank (words_before (w ∷ ws) ""))
    ∙ ap (λ r. push_all v (next_word r)) (split-words_before (w ∷ ws))
    ∙ push_all_lem v (w ∷ ws)

-- A shell splits the text into the values again, each as one word, whatever characters they have.
pub split_words-shell_words :
    (values : List String) → split_words between (shell_words values) ≡ some values
unfolding shell_words
split_words-shell_words values = split-words_before values

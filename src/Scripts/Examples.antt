-- ===== src/Scripts/Examples.antt =====
-- The theorem on the words, at some values, and two rendered texts.
use hermes_agent_operator.Prelude.{String, some, List, [], ◌∷◌, ◌≡◌, refl}
use hermes_agent_operator.Scripts.{combine_init_steps}
use hermes_agent_operator.Scripts.Words.{shell_words}
use hermes_agent_operator.Scripts.Sources.{git_clone_url, is_github_shorthand}
use hermes_agent_operator.Scripts.Split.{between, split_words, split_words-shell_words}

abbrev names : List String
names = "it's $HOME" ∷ "" ∷ "a b" ∷ []

split_words-shell_words_example : split_words between (shell_words names) ≡ some names
split_words-shell_words_example = split_words-shell_words names

words_text : shell_words names ≡ "'it'\\''s $HOME' '' 'a b'"
unfolding shell_words
words_text = refl

steps_text :
    combine_init_steps ("a" ∷ "b" ∷ [])
    ≡ "echo '==> Step 1/2'\n(\na\n)\necho '==> Step 2/2'\n(\nb\n)\n"
unfolding combine_init_steps
steps_text = refl

expanded : git_clone_url "github.com/a/b/" ≡ "https://github.com/a/b"
unfolding git_clone_url is_github_shorthand
expanded = refl

-- ===== src/HermesSecret/Examples.antt =====
-- The theorem on the kept keys, at a concrete Secret.
use hermes_agent_operator.Prelude.{true, false, none, some, [], ◌∷◌, ◌≡◌, refl}
use hermes_agent_operator.Objects.{Secret}
use hermes_agent_operator.Kube.Exec.{next, pure, ◌>>=◌}
use hermes_agent_operator.Kube.Samples.{cluster, everything, start, sample_agent, sample_secret}
use hermes_agent_operator.HermesSecret.{
  api_server_key, webhook_secret, hermes_secret, build_hermes_secret, add_key,
}
use hermes_agent_operator.HermesSecret.Kept.{IsKept, build_hermes_secret-keeps}

abbrev rebuilt : Secret
rebuilt = hermes_secret (cluster everything) (sample_agent none none) ((api_server_key, "abc") ∷ [])

is_rebuilt :
    (build_hermes_secret (cluster everything) (sample_agent none none) (some sample_secret) start).0
    ≡ next rebuilt
unfolding build_hermes_secret add_key pure ◌>>=◌
is_rebuilt = refl

build_hermes_secret-keeps_example :
    IsKept true (some sample_secret) api_server_key rebuilt.contents
    × IsKept false (some sample_secret) webhook_secret rebuilt.contents
build_hermes_secret-keeps_example =
    build_hermes_secret-keeps (cluster everything) (sample_agent none none) (some sample_secret)
      start is_rebuilt

-- ===== src/SearxngConfigMap/Examples.antt =====
-- The theorem on SearXNG's ConfigMap, at a concrete cluster.
use hermes_agent_operator.Prelude.{none, All}
use hermes_agent_operator.Kube.Samples.{cluster, everything, cluster-OnlyOwns, start, sample_agent}
use hermes_agent_operator.SearxngConfigMap.{reconcile_searxng_config_map}
use hermes_agent_operator.SearxngConfigMap.Requests.{
  IsConfigMapWrite, reconcile_searxng_config_map-writes,
}

reconcile_searxng_config_map-writes_example :
    All
      (IsConfigMapWrite (sample_agent none none))
      (reconcile_searxng_config_map (cluster everything) (sample_agent none none) start).1.log
reconcile_searxng_config_map-writes_example =
    reconcile_searxng_config_map-writes (cluster everything) (sample_agent none none)
      (cluster-OnlyOwns everything) start tt

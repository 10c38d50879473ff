-- ===== src/Restore/Examples.antt =====
-- The theorems on a restore, at a concrete cluster.
use hermes_agent_operator.Prelude.{none, some, All, refl}
use hermes_agent_operator.Kube.Samples.{
  cluster, everything, all_but_claims, cluster-OnlyOwns, no_object, start, sample_agent,
}
use hermes_agent_operator.Restore.{reconcile_restore}
use hermes_agent_operator.Restore.Requests.{IsRestoreWrite, reconcile_restore-writes}
use hermes_agent_operator.Restore.Gate.{IsNoDeletion, reconcile_restore-keeps_running}

reconcile_restore-writes_example :
    All
      (IsRestoreWrite (sample_agent none (some "snap-1")))
      (reconcile_restore (cluster everything) (sample_agent none (some "snap-1")) start).1.log
reconcile_restore-writes_example =
    reconcile_restore-writes (cluster everything) (sample_agent none (some "snap-1"))
      (cluster-OnlyOwns everything) start tt

reconcile_restore-keeps_running_example :
    All IsNoDeletion
      (reconcile_restore (cluster all_but_claims) (sample_agent none (some "snap-1")) start).1.log
reconcile_restore-keeps_running_example =
    reconcile_restore-keeps_running (cluster all_but_claims) (sample_agent none (some "snap-1"))
      (λ n w. (no_object, refl)) start tt

-- ===== src/Snapshot/Examples.antt =====
-- The theorems on snapshots, at a concrete cluster.
use hermes_agent_operator.Prelude.{
  ◌+◌, true, none, some, List, [], ◌∷◌, All, ◌≡◌, ◌≢◌, refl, is_some,
}
use hermes_agent_operator.Kube.Client.{ok, VolumeSnapshot, Platform}
use hermes_agent_operator.Kube.Calls.{get, list_volume_snapshots}
use hermes_agent_operator.Kube.Samples.{
  cluster, everything, no_kind, start, sample_agent, sample_snapshot,
}
use hermes_agent_operator.Snapshot.{
  split_snapshots, without_source, reconcile_snapshot, sort_newest_first, insert_sorted,
}
use hermes_agent_operator.Snapshot.Split.{IsRetained, split_snapshots-IsRetained}
use hermes_agent_operator.Snapshot.Requests.{IsSnapshotWrite, reconcile_snapshot-writes}
use hermes_agent_operator.Snapshot.Retention.{
  IsStatusWrite, reconcile_snapshot-suspended, reconcile_snapshot-fails,
}

abbrev three : List VolumeSnapshot
three = sample_snapshot "a" 5 ∷ sample_snapshot "b" 9 ∷ sample_snapshot "c" 7 ∷ []

split_snapshots-IsRetained_example :
    IsRetained three 2 (split_snapshots three 2).0 (split_snapshots three 2).1
split_snapshots-IsRetained_example = split_snapshots-IsRetained three 2

reconcile_snapshot-writes_example :
    All
      (IsSnapshotWrite (sample_agent none none))
      (reconcile_snapshot (cluster everything) (sample_agent none none) start).1.log
reconcile_snapshot-writes_example =
    reconcile_snapshot-writes (cluster everything) (sample_agent none none) start tt

reconcile_snapshot-suspended_example :
    All IsStatusWrite
      (reconcile_snapshot (cluster everything) (sample_agent (some true) none) start).1.log
reconcile_snapshot-suspended_example =
    reconcile_snapshot-suspended (cluster everything) (sample_agent (some true) none) start refl tt

two_outdated : without_source "" (split_snapshots three 1).1 ≢ []
unfolding split_snapshots without_source sort_newest_first insert_sorted
two_outdated h = cc

-- A cluster that lists all three.
abbrev with_three : Platform (Unit {0})
with_three = record (cluster everything) { client_list = λ n l w. (ok three, w) }

reconcile_snapshot-fails_example :
    is_some (reconcile_snapshot with_three (sample_agent none none) start).0.error ≡ true
unfolding get list_volume_snapshots
reconcile_snapshot-fails_example =
    reconcile_snapshot-fails with_three (sample_agent none none) (λ t. t + 60) three start
      (λ n w. (no_kind, refl, refl)) refl refl refl refl refl refl two_outdated

-- ===== src/Workload/Refines.antt =====
-- The whole reconciler of the StatefulSet (internal/usecase/hermesagent_statefulset.go) as a relation.
use hermes_agent_operator.Prelude.{Option, List, [], ◌≡◌}
use hermes_agent_operator.Objects.{StatefulSet}
use hermes_agent_operator.Api.Agent.{HermesAgent}
use hermes_agent_operator.Kube.Client.{Error, ok, err, Platform, stateful_set, config_map}
use hermes_agent_operator.Kube.Exec.{State, Request, Exec, next, stop, Outcome, attempt, ◌>>=◌}
use hermes_agent_operator.Kube.Calls.{get}
use hermes_agent_operator.Managed.Sends.{Sends}
use hermes_agent_operator.Workload.Inputs.{
  StatefulSetInputs, desired_spec_hash, config_map_data_hash,
}
use hermes_agent_operator.Workload.{
  set_ns_name, bootstrap_ns_name, desired_set, read_inputs, contents_of,
}
use hermes_agent_operator.Workload.Writes.{SetWrites}

module _ {W : Type 0} (p : Platform W) (build : HermesAgent → StatefulSetInputs → StatefulSet)
    (ha : HermesAgent) where
  -- The inputs that a run reads: the configuration's hash, and with egress on the egress Secrets.
  abbrev pub all_inputs : Exec W StatefulSetInputs
  all_inputs = attempt (get p config_map (bootstrap_ns_name ha)) >>= λ cm.
      read_inputs p build ha (config_map_data_hash p (contents_of p build ha cm))

  -- The StatefulSet cannot be read; or it is read, and then an input is not there; or all are read, and
  -- from there a case of the relation, from the StatefulSet that the cluster showed to the one that is
  -- built from these inputs.
  pub data RunWrites (s : State W) : List Request → Type 0 where
    no_set : {e : Error} → (get p stateful_set (set_ns_name ha) s).0 ≡ err e → RunWrites s []
    no_inputs :
        {existing : Option StatefulSet} {o : Outcome}
        → (get p stateful_set (set_ns_name ha) s).0 ≡ ok existing
        → (all_inputs (get p stateful_set (set_ns_name ha) s).1).0 ≡ stop o
        → RunWrites s []
    one_run :
        {qs : List Request} {existing : Option StatefulSet} {inputs : StatefulSetInputs}
        → (get p stateful_set (set_ns_name ha) s).0 ≡ ok existing
        → (all_inputs (get p stateful_set (set_ns_name ha) s).1).0 ≡ next inputs
        → SetWrites p ha
            (all_inputs (get p stateful_set (set_ns_name ha) s).1).1
            existing
            (desired_set p build ha inputs)
            (desired_spec_hash p (build ha inputs))
            qs
        → RunWrites s qs

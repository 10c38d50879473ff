-- ===== src/Kube.antt =====
-- The operator's access to the cluster: the libraries it calls, as a parameter (Client), the actions of
-- a reconciler (Exec), the methods of KubernetesClient (Calls), and the rules by which what a reconciler
-- writes is followed through its code (Writes); and a concrete cluster for the examples (Samples).
pub mod Client
pub mod Exec
pub mod Bound
pub mod Calls
pub mod Writes
pub mod Samples

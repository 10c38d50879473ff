-- ===== src/Api.antt =====
-- The HermesAgent custom resource (api/v1alpha1): its spec, its status and their accessors. Of the
-- spec, the fields that the modelled reconcilers read. A pointer is an `Option`, and a method on a nil
-- pointer a function on `none`.
pub mod Hermes
pub mod Security
pub mod Networking
pub mod Egress
pub mod Agent
pub mod Images
pub mod Accessors

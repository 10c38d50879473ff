-- ===== src/Egress.antt =====
-- The egress proxy (api/v1alpha1/hermesagent_egress.go, internal/usecase/hermesagent_egress_ca_secret.go
-- and hermesagent_egress_secret.go): which credentials it swaps, which ports it takes, its CA, and the
-- Secret with its configuration and the agent's tokens.
pub mod Hosts
pub mod Claims
pub mod Resolve
pub mod Ports
pub mod Refs
pub mod Ca
pub mod Mint
pub mod Proxy
pub mod Tokens
mod Examples

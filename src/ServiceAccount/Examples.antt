-- ===== src/ServiceAccount/Examples.antt =====
-- The theorem on the ServiceAccount, at a concrete cluster.

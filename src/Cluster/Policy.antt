-- ===== src/Cluster/Policy.antt =====
-- src/cluster/policy.rs: the operator's policy.

pub data OperationPolicy : Type 0 where
  automatic forced_standalone : OperationPolicy

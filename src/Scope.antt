-- ===== src/Scope.antt =====
-- pkg/nomad/scope: the two scopes that a reconciler works through, and the clients that they make.
pub mod States
pub mod Clients
pub mod ClusterScope
pub mod MachineScope

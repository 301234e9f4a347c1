-- ===== src/Api.antt =====
-- The provider's API group: api/v1alpha3, and the shapes of the Kubernetes and Cluster API objects
-- that the provider reads.
pub mod Meta
pub mod Conditions
pub mod NomadMachine
pub mod NomadCluster
pub mod Template

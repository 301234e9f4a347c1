-- ===== src/Tests.antt =====
-- Concrete runs of the model, and the theorems at concrete inputs.
pub mod Fixtures
pub mod Machines
pub mod Clusters
pub mod Pieces
pub mod Systems
pub mod Tables
pub mod Copies
pub mod Schemes

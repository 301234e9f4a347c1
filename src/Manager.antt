-- ===== src/Manager.antt =====
-- The process that runs the reconcilers: main.go, and `SetupWithManager` of the two controllers.
-- controller-runtime, cluster-api's tracker and pflag answer every step of it as they like.
pub mod Boot
pub mod Setup
pub mod Laws
pub mod Scheme

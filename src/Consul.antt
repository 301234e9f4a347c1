-- ===== src/Consul.antt =====
-- pkg/consulclient: the HTTP client of the Consul agent and its two service operations.
pub mod Client
pub mod Service

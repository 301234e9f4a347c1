-- ===== src/Machine.antt =====
-- pkg/nomad/machine: the service that registers, inspects and releases a machine's Nomad job.
pub mod Mac
pub mod Job
pub mod Service

-- ===== src/Controllers.antt =====
-- controllers: the two reconcilers, and the functions that map a watched object to requests.
pub mod Reply
pub mod DnsAttachment
pub mod MachineNormal
pub mod MachineDelete
pub mod MachineReconcile
pub mod ClusterReconcile
pub mod Requests

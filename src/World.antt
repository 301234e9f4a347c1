-- ===== src/World.antt =====
-- What the provider calls and does not implement: libraries (`World.Kit`), remote systems
-- (`World.Remote`), and the computations over them (`World.Monad`).
pub mod Error
pub mod Kit
pub mod Wire
pub mod Remote
pub mod Monad
pub mod Keeps
pub mod Ensures
pub mod Leads

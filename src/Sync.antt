-- ===== src/Sync.antt =====
-- The check-in synchronisation shared by the server and the extension.
pub mod Coverage
pub mod Store
pub mod Guards
pub mod Conclude
pub mod Local
pub mod Walk
pub mod Session
mod Examples

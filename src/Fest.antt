-- ===== src/Fest.antt =====
-- src/domain/fest/: what a festival's check-ins prove.
pub mod Coverage
pub mod Eyes
pub mod Closure
pub mod Targets
pub mod Planning
pub mod Presence
pub mod Queue
pub mod Print
pub mod Ranking
mod Examples

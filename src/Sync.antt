-- ===== src/Sync.antt =====
-- internal/sync: the writer of managed Secrets and the engine that decides what they hold.
pub mod Writer
pub mod Engine
pub mod Convergence

-- ===== src/State.antt =====
-- internal/state: the persisted label history of a session.
pub mod Store
pub mod Daemon
pub mod Sharing

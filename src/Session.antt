-- ===== src/Session.antt =====
-- internal/session: one call from its setup to its end.
pub mod Admission
pub mod Command
pub mod Lifecycle
pub mod Runner
pub mod Supervise

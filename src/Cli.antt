-- ===== src/Cli.antt =====
-- cmd/ngntun/main.go: from the options to the session, and from its end to the exit code.
pub mod Config
pub mod Exit
pub mod Main
pub mod Options
pub mod Report
pub mod Source
pub mod Values

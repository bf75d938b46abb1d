-- ===== src/Media.antt =====
-- internal/media/media.go: the forwarder between the tun device and the media flow.
pub mod Stats
pub mod Forwarder
pub mod Source
pub mod Running
pub mod Ending
pub mod Counting

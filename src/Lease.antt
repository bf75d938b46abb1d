-- ===== src/Lease.antt =====
-- internal/lease/lease.go: lease files turned into provisioning data.
pub mod Dns
pub mod Vendor
pub mod Hexish
pub mod Provisioning
pub mod Load

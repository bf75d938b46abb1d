-- ===== src/Tests.antt =====
-- Concrete runs of the theorems, by the part that they are about.
mod Network
mod Provision
mod Agent
mod Wire
mod Calls
mod Session
mod Line
mod Operations

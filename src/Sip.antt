-- ===== src/Sip.antt =====
-- internal/sip: messages, transactions, dialogs and the user agent.
pub mod Failure
pub mod Header
pub mod Param
pub mod Message
pub mod System
pub mod Start
pub mod Wire
pub mod Operations
pub mod Transaction
pub mod Response
pub mod Dialog
pub mod Expires
pub mod Outgoing
pub mod Ua
pub mod Request
pub mod Invite

-- ===== src/Manager.antt =====
-- The manager (manager/src/main.rs): its modules follow the parts of that file.
pub mod Access
pub mod Db
pub mod Query
pub mod Sessions
pub mod Usage
pub mod Attachments
pub mod Reader
pub mod Qa
pub mod Templates
pub mod Frames
pub mod Flush
pub mod Pairing
pub mod Provision
pub mod Replies
pub mod Control
pub mod Identity

-- ===== src/Tests.antt =====
-- Runs of the models on concrete inputs, and each theorem applied to one.
pub mod Chat
pub mod Access
pub mod Reader
pub mod Session
pub mod Boxes
pub mod Queries
pub mod Env
pub mod Templates
pub mod Provision
pub mod Control
pub mod Identity

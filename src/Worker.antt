-- ===== src/Worker.antt =====
-- The worker (worker/src).
pub mod Io
pub mod UserEnv
pub mod RichLevel
pub mod Session
pub mod Attachments
pub mod Box
pub mod Migrate
pub mod AppState
pub mod Opening
pub mod Provisioning
pub mod PtyInput
pub mod Control

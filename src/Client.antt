-- ===== src/Client.antt =====
-- internal/client: the client of the databasus API.
pub mod Request
pub mod Storage
pub mod Notifier
pub mod Database
pub mod BackupConfig
pub mod Healthcheck
pub mod Saved
pub mod Answers
pub mod Asked
pub mod Endpoints
pub mod Auth

-- ===== src/Wire.antt =====
-- What travels between the operator and databasus: JSON, and the request and response types of
-- internal/client with their JSON field names.
pub mod RoundTrip
pub mod Json
pub mod Storage
pub mod Notifier
pub mod Database
pub mod BackupConfig
pub mod Healthcheck
pub mod Auth

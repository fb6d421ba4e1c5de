-- ===== src/Controller.antt =====
-- internal/controller: the three reconcilers.
pub mod Outcome
pub mod Written
pub mod Secret
pub mod Storage
pub mod Notifier
pub mod DatabaseBackup
pub mod Silent
pub mod Authority

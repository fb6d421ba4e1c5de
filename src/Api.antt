-- ===== src/Api.antt =====
-- api/v1alpha1: the custom resources, and the metadata that Kubernetes keeps with them.
pub mod Meta
pub mod Storage
pub mod Notifier
pub mod DatabaseBackup

-- ===== src/Tests.antt =====
-- A cluster in memory, runs of the operator on it, and the theorems at concrete data.
mod Cluster
mod Objects
mod Runs
mod Witnesses
mod Syncs
mod Startup
mod Contents
mod Once
mod Methods

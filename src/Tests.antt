-- ===== src/Tests.antt =====
-- Runs of the code on a small installation, and the theorems at it.
mod Sample
mod Tasks
mod Writes
mod Metrics
mod Lifecycle
mod Application
mod Sessions
mod Auth
mod Login
mod Service
mod Settings
mod RateLimit
mod Broker

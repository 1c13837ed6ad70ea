-- ===== src/Tests.antt =====
-- Concrete surroundings, runs on them, and the theorems at concrete inputs.
mod Sample
mod Controller
mod Cluster
mod Patch
mod Analysis
mod Commands
mod Progress
mod Together
mod Database
mod Demo
mod DeepCopy
mod Promotion
mod Manager
mod Totals
mod Rollback
mod Resume
mod Advance

-- ===== src/Tests.antt =====
-- Concrete inputs for the theorems, and the theorems applied to them.
mod Fixtures
mod Decisions
mod Runs
mod Rounds
mod Parts
mod Configs
mod Hosts
mod Installs
mod Conversions
mod Commands
mod Scripts
mod Secrets
mod Updates

-- ===== src/Manager.antt =====
-- The Linux manager linux/python/mpm.
pub mod Preflight
pub mod Health
pub mod Service
pub mod Configure
pub mod Uninstall
pub mod Secrets
pub mod Update

-- ===== src/Convert.antt =====
-- scripts/convert_sub.py: a subscription becomes a list of mihomo proxies.
pub mod Library
pub mod Result
pub mod Uri
pub mod Base64
pub mod Fields
pub mod Proxies
pub mod Schemes
pub mod Singbox
pub mod Process
pub mod Detect
pub mod Content
pub mod Sources
pub mod Command
pub mod Merge

-- ===== src/Failover.antt =====
-- scripts/proxy-auto-switch.py: the failover of the select groups GPT, MUSE and US-FAST.
pub mod Library
pub mod Coerce
pub mod Region
pub mod Samples
pub mod Ranking
pub mod Decide
pub mod State
pub mod Nodes
pub mod Plan
pub mod Receiver
pub mod Round

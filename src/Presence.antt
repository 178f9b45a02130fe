-- ===== src/Presence.antt =====
-- internal/client/presence: the deadman's switch, and what is proved of it.
pub mod Deadman
pub mod Diagram
pub mod Tiers
pub mod Examples

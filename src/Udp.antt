-- ===== src/Udp.antt =====
-- The datagram programs of hw1.
pub mod Server
pub mod Client
pub mod Conversation

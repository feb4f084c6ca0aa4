-- ===== src/Tests.antt =====
-- The theorems at concrete inputs.
mod Datagrams
mod Streams
mod Files
mod Windows
mod Texts
mod Sockets
mod Secure
mod Clients
mod Resolved
mod Web
mod Torrents
mod Wrappers

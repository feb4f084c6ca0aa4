-- ===== src/FileServer.antt =====
-- hw4/tcp_server/main.cpp: the server that echoes a line and sends a file for `get`.
pub mod Transceiver
pub mod Request
pub mod Session

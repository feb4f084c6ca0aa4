-- ===== src/Torrent.antt =====
-- hw8/torrent_client/torrent_client.cpp.
pub mod Start
pub mod Loop
pub mod Main

-- ===== src/Qt.antt =====
-- The programs of hw5 over Qt: a server and a client that exchange framed messages and files.
pub mod Stream
pub mod Frame
pub mod Reader
pub mod Server
pub mod Client
pub mod Conversation
pub mod Talk

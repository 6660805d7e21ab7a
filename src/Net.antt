-- ===== src/Net.antt =====
-- src/libpplmenet: framed messages, connections over sockets, the client and the server.
pub mod Message
pub mod Connection
pub mod Frames
pub mod Client
pub mod Server

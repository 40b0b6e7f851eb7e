-- ===== src/Server/Handshake.antt =====
-- src/edhoc/server/handshake: the responder's side of the four messages. A context pointer is an
-- option of the context; what libedhoc makes of the context stands beside each result.
pub mod Message1
pub mod Message2
pub mod Message3
pub mod Message4
pub mod Responders

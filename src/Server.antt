-- ===== src/Server.antt =====
-- The server: src/coap/server, src/edhoc/server and the parts of src/edhoc/common that only it calls.
pub mod Session
pub mod Extract
pub mod AddError
pub mod Handshake
pub mod Dispatch
pub mod Lifetime
pub mod Application

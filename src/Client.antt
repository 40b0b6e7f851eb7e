-- ===== src/Client.antt =====
-- The client: src/coap/client, src/edhoc/client and src/core/app_client.c.
pub mod Renegotiate
pub mod Endpoint
pub mod Resources
pub mod Confirmation
pub mod Application
pub mod Exchange
pub mod Handshake
pub mod Send
pub mod Negotiation

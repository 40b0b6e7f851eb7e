-- ===== src/Client/Application.antt =====
-- A whole run of the client, `core_run_client` of src/core/app_client.c.
pub mod Run
pub mod Confirm
pub mod Handshake
pub mod Main
pub mod Outcome
pub mod Steps
pub mod Whole
pub mod NoFault
pub mod Laws

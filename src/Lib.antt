-- ===== src/Lib.antt =====
-- A client and a server that run the EDHOC handshake (RFC 9528) over CoAP and then protect a resource
-- with OSCORE. libedhoc does the cryptography and libcoap the transport; this repository holds what
-- lies between: the choice of cipher suites, the set-up of EDHOC contexts, the server's dictionary of
-- handshakes under way, the dispatch of requests, and the client's exchange.
--
-- Parts and files:
--   Library       the calls of libedhoc and libcoap, as records of operations: parameters throughout
--   Base          shared names: tests, pointers as options, arrays as lists
--   Common        src/common/com_data_models.c, and com_parse_suites_arguments.c (Common/Arguments)
--   Suites        src/edhoc/common/com_edhoc_cipher_suites.c, with the creation of the list in
--                 Suites/Known; Suites/Parameters is com_edhoc_parameters.c, Suites/Setup is
--                 com_edhoc_manage_context.c, and Suites/Negotiate
--                 src/edhoc/client/handshake/cli_negotiate_cipher_suites.c
--   ConnectionId  src/edhoc/common/com_generate_connection_id.c
--   Credentials   src/edhoc/credentials
--   Coap          src/coap/common: Data is the reading of a PDU, Context com_coap_context.c and
--                 com_session_resources.c
--   Oscore        src/oscore; Oscore/Text reads the text of a configuration back
--   Server        src/coap/server and src/edhoc/server: Session is internal/srv_session.c and
--                 Session/Refinement the map that it shows, Extract extract_edhoc_message, AddError
--                 src/edhoc/common/add_error, Handshake the messages, Dispatch
--                 internal/srv_dispatch_engine.c with its table of functions and its guards in
--                 Dispatch/Guards, Lifetime the requests one after the other, and Application
--                 core_run_server of src/core/app_server.c with srv_utils.c
--   Client        src/coap/client and src/edhoc/client: Exchange is cli_exchange.c, Send and Endpoint
--                 are cli_utils.c (POST requests; URIs, sessions and GET requests), Renegotiate and
--                 Resources are cli_resources.c (the context; the release of everything),
--                 Confirmation the temperature request and its wait, Handshake the messages,
--                 Negotiation and Application src/core/app_client.c: Application/Main is
--                 core_run_client
--   Interop       a server's error about the suite, and the client's negotiation from it
--   Programs      src/main_server.c and src/main_client.c, from the command line to the run
--   Examples      concrete libraries and messages at which the theorems apply
--
-- A function has the name of its C function without the prefix (com_, srv_, cli_, edhoc_, coap_), and
-- its statuses those of the C enumeration. State is passed on explicitly. A pointer is an option;
-- where C compares pointers, the record holds its address. EDHOC contexts of the server lie on a heap,
-- a function from addresses. A result `none` of a function whose comment says so is a memory fault:
-- a read or a call through NULL, the use of an EDHOC context of that heap behind its free, a second
-- free of one, or an access outside an array. A view of
-- bytes carries the bytes that it shows, since no buffer is written while a view of it is in use.
-- Every loop is structural recursion on the list that it runs over; the waiting loop of the client
-- runs over the list of events that `coap_io_process` produces. An
-- int of a suite is an integer, the option's value is cut to 16 bits where C does it, and the int8_t
-- counters wrap round.
--
-- What the client gets from libcoap and from `calloc`, and what it releases, is no part of a heap but a
-- list of events, a ledger, that its run appends to: the context, sessions, the exchange and the PDU of
-- the GET request. There a second release is an event like the first, and Client/Resources/Laws says of a
-- ledger whether it has one; what libcoap does then is not modelled, and the run goes on.
--
-- Not modelled: logging, which has no effect on the state; the deletion of the other PDUs and of option
-- lists before they are sent; the three constant lists of suites, which only tests use; and the exit
-- codes of the programs.
pub mod Base
pub mod Library
pub mod Examples
pub mod Common
pub mod Suites
pub mod Coap
pub mod Oscore
pub mod Server
pub mod ConnectionId
pub mod Credentials
pub mod Client
pub mod Interop
pub mod Programs

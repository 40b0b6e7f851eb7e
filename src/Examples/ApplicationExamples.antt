-- ===== src/Examples/ApplicationExamples.antt =====
-- A whole run of the client that succeeds, and the theorems on it.
use tfg_edhoc.Base.{
  ℕ, ◌≡◌, refl, ◌≢◌, ◌⊎◌, true, false, none, some, List, [], ◌∷◌, arith, length, length-replicate,
}
use tfg_edhoc.Examples.{
  libedhoc, libcoap, libcoap_client, libcoap_oscore, parameters, buffer, view, Pdu,
}
use tfg_edhoc.Library.{changed, content}
use tfg_edhoc.Suites.Int.{pos}
use tfg_edhoc.Client.Exchange.{init_exchange, exchange_wait_and_get, reset}
use tfg_edhoc.Client.Negotiation.{Attempt}
use tfg_edhoc.Coap.Context.{create_context}
use tfg_edhoc.Client.Endpoint.{
  LibcoapEndpoint, build_server_uri, parse_and_resolve_coap_uri, create_session,
  prepare_get_request, resolve_address,
}
use tfg_edhoc.Client.Confirmation.{Flags, wait_for_confirmation}
use tfg_edhoc.Client.Application.Run.{Environment, RunResult, success, waiting, send_message}
use tfg_edhoc.Client.Application.Laws.{
  Settled, core_run_client-Settled, core_run_client_success, refused_message_2-send_message,
}
use tfg_edhoc.Client.Application.NoFault.Steps.{KeepsAll}
use tfg_edhoc.Client.Application.NoFault.{Frees, core_run_client-Frees}
use tfg_edhoc.Client.Confirmation.Laws.{HasContent}
use tfg_edhoc.Client.Handshake.{
  Message2InitiatorStatus, respond_to_message_2, process_message_2, compose_message_1,
  compose_message_3,
}
use tfg_edhoc.Client.Resources.{
  acquired, released, coap_context, exchange_session, oscore_session, exchange, request_pdu,
  new_exchange, cleanup_resources,
}
use tfg_edhoc.Client.Resources.Laws.{made}
use tfg_edhoc.Client.Send.{
  create_request_pdu, initial_fields, send_message_1, send_message_3, add_uri_into_pdu,
  send_coap_request,
}
use tfg_edhoc.Client.Send.Laws.{Fits}
use tfg_edhoc.Suites.{suite_0, cipher_suite_0, cipher_suites_are_valid}
use tfg_edhoc.Examples.ClientExamples.{libedhoc-Keeps}
use tfg_edhoc.Examples.ServerExamples.{parameters-Coherent}
use tfg_edhoc.Examples.SuiteExamples.{parameters-IsValid, both_suites-Consistent}
use tfg_edhoc.Suites.Setup.{setup_context, build_cipher_suites}
use tfg_edhoc.Suites.Parameters.{
  validate_parameters, methods_are_missing, duplicated_suites_in, suite_in_suites_list,
}
use tfg_edhoc.Coap.Pdu.{create_coap_edhoc_optlist, add_payload_to_pdu}
use tfg_edhoc.Coap.Data.{pdu_is_empty, get_data}
use tfg_edhoc.Coap.Request.{parse_edhoc_request}
use tfg_edhoc.Suites.Negotiate.{error_suggests_renegotiation, process_error}
use tfg_edhoc.ConnectionId.{generate}
use tfg_edhoc.Oscore.{build_config}
use tfg_edhoc.Client.Application.Main.{core_run_client}

abbrev pub libcoap_endpoint : LibcoapEndpoint Pdu (List ℕ) ℕ ℕ ℕ ℕ
libcoap_endpoint = record {
  split_uri = λ text. some (length text);
  uri_host = λ u. [];
  uri_port = λ u. 5683;
  uri_scheme = λ u. 0;
  scheme_coap_tcp = 2;
  resolve_address_info = λ host port bits. some 1;
  contexts = record { new_context = some 0; set_block_mode = λ x. x };
  new_client_session = λ x a protocol. some 4;
  post = λ s u a. libcoap_client;
  get = λ s u a. libcoap_client;
  null_optlist = [];
}

abbrev reply : Pdu → Attempt Pdu
reply pdu = record {
  events = (record { elapsed_milliseconds = pos 3; received = pdu ∷ [] }) ∷ [];
  leisure = 5;
}

abbrev pub environment : Environment Pdu
environment = record {
  server_ip = 49 ∷ [];
  psa = true;
  exchange_allocated = true;
  payload_buffer = buffer;
  first =
      reply
        (record { code = changed; content_format = some (64 ∷ []); payload = some (5 ∷ 6 ∷ []) });
  second = record { events = []; leisure = 5 };
  third = reply (record { code = changed; content_format = none; payload = none });
  confirmation = reply (record { code = content; content_format = none; payload = some (50 ∷ []) });
}

abbrev pub flags : Flags
flags = record { response_received = false; error_response = false }

abbrev result : RunResult ℕ
result = record {
  status = success;
  log =
      acquired coap_context
      ∷ acquired exchange_session
      ∷ acquired exchange
      ∷ acquired oscore_session
      ∷ acquired request_pdu
      ∷ released request_pdu
      ∷ released oscore_session
      ∷ released exchange
      ∷ released exchange_session
      ∷ released oscore_session
      ∷ released coap_context
      ∷ [];
  edhoc_context = 0;
  flags = record { response_received = true; error_response = false };
}

run_succeeds :
    core_run_client libcoap libcoap_endpoint libcoap_oscore libedhoc environment parameters flags
    ≡ some result
unfolding core_run_client build_server_uri parse_and_resolve_coap_uri create_context create_session
    prepare_get_request resolve_address setup_context build_cipher_suites validate_parameters
    methods_are_missing duplicated_suites_in suite_in_suites_list cipher_suites_are_valid
    new_exchange cleanup_resources compose_message_1 respond_to_message_2 process_message_2
    compose_message_3 send_message_1 send_message_3 create_request_pdu add_uri_into_pdu
    send_coap_request initial_fields create_coap_edhoc_optlist add_payload_to_pdu
    exchange_wait_and_get reset pdu_is_empty get_data parse_edhoc_request
    error_suggests_renegotiation process_error generate wait_for_confirmation build_config
run_succeeds = refl

core_run_client-Settled_example : (result.status ≡ waiting) ⊎ Settled result.log
core_run_client-Settled_example =
    core_run_client-Settled libcoap libcoap_endpoint libcoap_oscore libedhoc environment parameters
      flags result run_succeeds

core_run_client_success_example :
    (made oscore_session result.log ≡ 1)
    × (made request_pdu result.log ≡ 1)
    × HasContent libcoap environment.confirmation.events
core_run_client_success_example =
    core_run_client_success libcoap libcoap_endpoint libcoap_oscore libedhoc environment parameters
      flags result run_succeeds refl

pub libedhoc-KeepsAll : KeepsAll libedhoc
unfolding initial_fields
libedhoc-KeepsAll = record {
  keeps = libedhoc-Keeps;
  composes_3 = λ c bytes capacity. ground arith;
  cid_fits = cids_fit;
}
  where
    cids_fit : (c : ℕ) → Fits (libedhoc.prepend_connection_id c initial_fields)
    cids_fit c = omega (arith, length-replicate {A = ℕ} 1023 0)

pub get_pdu : (s u a : ℕ) → create_request_pdu libcoap (libcoap_endpoint.get s u a) ≢ none
unfolding create_request_pdu
get_pdu s u a h = cc

core_run_client-Frees_example :
    Frees (
      core_run_client libcoap libcoap_endpoint libcoap_oscore libedhoc environment parameters flags)
core_run_client-Frees_example =
    core_run_client-Frees libcoap libcoap_endpoint libcoap_oscore libedhoc libedhoc-KeepsAll get_pdu
      environment parameters suite_0 cipher_suite_0 parameters-IsValid both_suites-Consistent
      parameters-Coherent flags

not_accepted :
    (respond_to_message_2 libedhoc (some 2) (view []) buffer).status ≢ Message2InitiatorStatus.ok
unfolding respond_to_message_2 process_message_2
not_accepted h = cc

refused_message_2-send_message_example :
    send_message libcoap libcoap_client
      (some (init_exchange buffer))
      (respond_to_message_2 libedhoc (some 2) (view []) buffer).buffer
    ≡ (false, none)
refused_message_2-send_message_example =
    refused_message_2-send_message libcoap libcoap_endpoint libcoap_oscore libedhoc libcoap_client
      (init_exchange buffer) 2 (view []) buffer refl not_accepted

-- ===== src/Examples/ServerRunExamples.antt =====
-- A run of the server that answers a Message 1 and a Message 3 and then loses its transport.
use tfg_edhoc.Base.{ℕ, ◌+◌, refl, true, none, some, List, [], ◌∷◌}
use tfg_edhoc.Examples.{libedhoc, libcoap, libcoap_oscore, parameters, Pdu}
use tfg_edhoc.Examples.ServerExamples.{libedhoc-EqualityLaws, parameters-Coherent, handshake}
use tfg_edhoc.Suites.{suite_0, cipher_suite_0}
use tfg_edhoc.Suites.Int.{pos, negsuc}
use tfg_edhoc.Server.Application.{LibcoapServer, IoCall, core_run_server}
use tfg_edhoc.Server.Application.Laws.{Ends, core_run_server-Ends}

-- One address to listen at; a resource is its path.
abbrev pub libcoap_server : LibcoapServer ℕ ℕ (List ℕ)
libcoap_server = record {
  contexts = record { new_context = some 0; set_block_mode = λ x. x };
  set_app_data2 = λ x. (none, x);
  available_scheme_hint_bits = 1;
  resolve_local = λ address bits. 7 ∷ [];
  new_endpoint = λ e x. (true, x + 1);
  resource_init = λ path oscore_only. some path;
  register_request_handler = λ method handler r. r;
  add_resource = λ r x. x + 1;
}

abbrev pub calls : List (IoCall Pdu)
calls =
    record { posts = handshake; returned = pos 5 } ∷ record { posts = []; returned = negsuc 0 } ∷ []

core_run_server-Ends_example :
    Ends libedhoc libcoap libcoap_oscore
      (core_run_server libedhoc libcoap libcoap_oscore libcoap_server parameters calls)
core_run_server-Ends_example =
    core_run_server-Ends libedhoc libcoap libcoap_oscore libedhoc-EqualityLaws parameters suite_0
      cipher_suite_0 parameters-Coherent libcoap_server calls (λ x. refl)

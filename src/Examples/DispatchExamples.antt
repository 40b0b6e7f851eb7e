-- ===== src/Examples/DispatchExamples.antt =====
-- The first Message 1 that the server gets.
use tfg_edhoc.Base.{ℕ, ◌≡◌, true, some, [], ◌∷◌}
use tfg_edhoc.Examples.{Pdu, libedhoc, libcoap, libcoap_oscore, blank_pdu, view, parameters}
use tfg_edhoc.Examples.ServerExamples.{libedhoc-EqualityLaws, parameters-Coherent}
use tfg_edhoc.Suites.{suite_0, cipher_suite_0}
use tfg_edhoc.Server.Session.{empty_dictionary}
use tfg_edhoc.Server.Dispatch.{Answer, Environment, route_message_1}
use tfg_edhoc.Server.Dispatch.Admission.{Admission, route_message_1-Admission}
use tfg_edhoc.Server.Lifetime.{initial_state, initial_state-Inv}

abbrev environment : Environment
environment = record { psa_init_succeeds = true; calloc_succeeds = true }

route_message_1-Admission_example :
    (r : Answer ℕ ℕ Pdu ℕ) × (route_message_1 libedhoc libcoap libcoap_oscore environment parameters
        (view (245 ∷ 7 ∷ []))
        blank_pdu
        (initial_state libedhoc libcoap libcoap_oscore 0)
      ≡ some r)
    × Admission libedhoc libcoap libcoap_oscore (empty_dictionary libedhoc) 0 r
route_message_1-Admission_example =
    route_message_1-Admission libedhoc libcoap libcoap_oscore libedhoc-EqualityLaws environment
      parameters suite_0 cipher_suite_0 (view (245 ∷ 7 ∷ [])) blank_pdu
      (initial_state libedhoc libcoap libcoap_oscore 0) parameters-Coherent
      (initial_state-Inv libedhoc libcoap libcoap_oscore 0)

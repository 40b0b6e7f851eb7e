-- ===== src/Server/Dispatch/Guards.antt =====
-- The table of functions of src/coap/server/internal/srv_dispatch_engine.h, as src/coap/server/srv_dispatch.c
-- fills it, and the tests that the engine makes before it looks at a request.
use tfg_edhoc.Base.{
  ◌≡◌, refl, Bool, true, false, not, ◌&&◌, Option, none, some, if◌then◌else◌, is_some, ◌>>=◌,
}
use tfg_edhoc.Library.{Libedhoc, Libcoap, internal_error}
use tfg_edhoc.Oscore.Sessions.{LibcoapOscore}
use tfg_edhoc.Suites.Parameters.{EdhocParameters}
use tfg_edhoc.Server.Dispatch.{State, Environment, dispatch_edhoc_post}

-- The functions that `srv_dispatch.c` names.
pub data DispatchFunction : Type 0 where
  com_coap_parse_edhoc_request com_coap_add_edhoc_options_to_pdu srv_edhoc_is_message_1
        srv_coap_extract_message_1 srv_coap_extract_connection_id srv_coap_connection_id_is_expected
        srv_edhoc_respond_to_message_1 srv_coap_process_message_1_result
        srv_edhoc_respond_to_message_3 srv_coap_process_message_3_result com_coap_add_payload_to_pdu
        srv_session_set_context_by_cid srv_session_get_context_by_cid
        srv_session_remove_context_by_cid srv_oscore_bind_session :
      DispatchFunction

-- `none` is a NULL pointer.
pub record DispatchDeps : Type 0 where
  pub parse_edhoc_request : Option DispatchFunction
  pub add_edhoc_response_options : Option DispatchFunction
  pub is_message_1 : Option DispatchFunction
  pub extract_message_1 : Option DispatchFunction
  pub extract_cid : Option DispatchFunction
  pub connection_id_is_expected : Option DispatchFunction
  pub respond_to_message_1 : Option DispatchFunction
  pub process_message_1_result : Option DispatchFunction
  pub respond_to_message_3 : Option DispatchFunction
  pub process_message_3_result : Option DispatchFunction
  pub add_response_payload : Option DispatchFunction
  pub set_context_by_cid : Option DispatchFunction
  pub get_context_by_cid : Option DispatchFunction
  pub remove_context_by_cid : Option DispatchFunction
  pub bind_oscore_session : Option DispatchFunction

abbrev pub default_deps : DispatchDeps
default_deps = record {
  parse_edhoc_request = some com_coap_parse_edhoc_request;
  add_edhoc_response_options = some com_coap_add_edhoc_options_to_pdu;
  is_message_1 = some srv_edhoc_is_message_1;
  extract_message_1 = some srv_coap_extract_message_1;
  extract_cid = some srv_coap_extract_connection_id;
  connection_id_is_expected = some srv_coap_connection_id_is_expected;
  respond_to_message_1 = some srv_edhoc_respond_to_message_1;
  process_message_1_result = some srv_coap_process_message_1_result;
  respond_to_message_3 = some srv_edhoc_respond_to_message_3;
  process_message_3_result = some srv_coap_process_message_3_result;
  add_response_payload = some com_coap_add_payload_to_pdu;
  set_context_by_cid = some srv_session_set_context_by_cid;
  get_context_by_cid = some srv_session_get_context_by_cid;
  remove_context_by_cid = some srv_session_remove_context_by_cid;
  bind_oscore_session = some srv_oscore_bind_session;
}

unfoldable pub dispatch_deps_are_valid : Option DispatchDeps → Bool
dispatch_deps_are_valid none = false
dispatch_deps_are_valid (some deps) =
    is_some deps.parse_edhoc_request
    && (is_some deps.add_edhoc_response_options
        && (is_some deps.is_message_1
            && (is_some deps.extract_message_1
                && (is_some deps.extract_cid
                    && (is_some deps.connection_id_is_expected
                        && (is_some deps.respond_to_message_1
                            && (is_some deps.process_message_1_result
                                && (is_some deps.respond_to_message_3
                                    && (is_some deps.process_message_3_result
                                        && (is_some deps.add_response_payload
                                            && (is_some deps.set_context_by_cid
                                                && (is_some deps.get_context_by_cid
                                                    && (is_some deps.remove_context_by_cid
                                                        && is_some
                                                            deps.bind_oscore_session)))))))))))))

-- What a dispatch leaves: the response, unless it is NULL, and the state.
pub record Dispatched (C K P X : Type 0) : Type 0 where
  pub response : Option P
  pub state : State C K X

module _ {C K P O X F S : Type 0} (lib : Libedhoc C K) (coap : Libcoap P O)
    (oscore : LibcoapOscore X F S) where
  -- `if (response != NULL) coap_pdu_set_code(response, COAP_RESPONSE_CODE_INTERNAL_ERROR);`
  abbrev refused_dispatch : Option P → State C K X → Option (Dispatched C K P X)
  refused_dispatch none s = some (record { response = none; state = s })
  refused_dispatch (some response) s =
      some (record { response = some (coap.set_code internal_error response); state = s })

  -- The engine, for a table whose functions, as far as they are there, are those of `srv_dispatch.c`;
  -- `has_context` says whether the CoAP context, which is in the state, is not NULL.
  unfoldable pub dispatch_post_with_dependencies :
      Environment
      → EdhocParameters
      → Option P
      → Option P
      → Option DispatchDeps
      → Bool
      → State C K X
      → Option (Dispatched C K P X)
  unfolding dispatch_deps_are_valid dispatch_edhoc_post
  dispatch_post_with_dependencies env parameters request response deps has_context s =
      if not (dispatch_deps_are_valid deps) then refused_dispatch response s else elim request [
        | none ↦ refused_dispatch response s
        | some q ↦ elim response [
          | none ↦ refused_dispatch none s
          | some r ↦
              let answered = dispatch_edhoc_post lib coap oscore env parameters q r s in
              if not has_context
              then refused_dispatch (some r) s
              else answered >>= λ a. some (record { response = some a.response; state = a.state })
        ]
      ]

  -- `srv_coap_dispatch_edhoc_post` of `srv_dispatch.c`.
  unfoldable pub coap_dispatch_edhoc_post :
      Environment
      → EdhocParameters
      → Option P
      → Option P
      → Bool
      → State C K X
      → Option (Dispatched C K P X)
  unfolding dispatch_post_with_dependencies
  coap_dispatch_edhoc_post env parameters request response has_context s =
      dispatch_post_with_dependencies env parameters request response (some default_deps)
        has_context s

  -- libcoap hands the handler a request, a response and a context, so every request is looked at.
  pub coap_dispatch_edhoc_post_lem :
      (env : Environment) (parameters : EdhocParameters) (request response : P) (s : State C K X)
      → coap_dispatch_edhoc_post env parameters (some request) (some response) true s ≡ (
          dispatch_edhoc_post lib coap oscore env parameters request response s >>= λ a.
          some (record { response = some a.response; state = a.state }))
  unfolding coap_dispatch_edhoc_post
  coap_dispatch_edhoc_post_lem env parameters request response s = refl

-- ===== src/Client/Application/NoFault.antt =====
-- Memory faults of a whole run of the client of src/core/app_client.c, given a PDU for its GET request: NULL
-- and bounds in the model of its calls, second releases in its list of events.
pub mod Steps
use tfg_edhoc.Base.{
  ℕ, zero, suc, ◌+◌, ◌-◌, ◌*◌, ◌/◌, ◌%◌, ◌≤◌, ◌<◌, ◌≡◌, refl, sym, ap, subst, ◌∙◌, ◌≢◌, ◌⊎◌, inl,
  inr, Bool, true, false, not, ◌&&◌, ◌||◌, Option, none, some, List, [], ◌∷◌, ◌++◌, map, append-nil,
  append_assoc, arith, ltb, leb, ◌==◌, if◌then◌else◌, is_some, or_else, same_address, ◌>>=◌,
  Bool-cases, Option-cases, same_address_eq, same_address_refl, length, get_elem?, write, replicate,
  take, last_or, length-append, length-replicate, length-map, write-append, All, write_next,
  take-append, All-append, drop,
}
use tfg_edhoc.Common.Buffers.{ReadonlyBuffer, WritableBuffer}
use tfg_edhoc.Library.{Libedhoc, Libcoap}
use tfg_edhoc.Coap.{StatusCoap}
use tfg_edhoc.Oscore.Sessions.{LibcoapOscore}
use tfg_edhoc.Oscore.Sessions
use tfg_edhoc.Server.AddError.{codes}
use tfg_edhoc.Suites.{CipherSuite, CipherSuiteDetails}
use tfg_edhoc.Suites.Parameters.{EdhocParameters, IsValid, entries}
use tfg_edhoc.Suites.Setup.{setup_context}
use tfg_edhoc.Suites.Setup.Laws.{Coherent, setup_context_no_fault}
use tfg_edhoc.Client.Exchange.{Exchange, WaitAndGetResult, exchange_wait_and_get}
use tfg_edhoc.Client.Handshake.{
  ComposeStatus, Message2InitiatorStatus, respond_to_message_2, process_message_2,
  compose_message_3,
}
use tfg_edhoc.Client.Renegotiate.{initialize_edhoc_context_with_parameters}
use tfg_edhoc.Client.Renegotiate.Prefix.{Consistent}
use tfg_edhoc.Client.Send.{
  LibcoapClient, PreparePduStatus, SendResult, initial_fields, create_request_pdu, send_message_3,
  send_coap_request,
}
use tfg_edhoc.Client.Send.Laws.{Fits, InBounds, Sent, send_message-Sent}
use tfg_edhoc.Client.Negotiation.{AttemptStatus, AttemptResult, Attempt, resolve_negotiation}
use tfg_edhoc.Client.Negotiation.Keeps.{Keeps}
use tfg_edhoc.Client.Negotiation.Laws.{resolve_negotiation_no_fault}
use tfg_edhoc.Coap.Context.{create_context}
use tfg_edhoc.Client.Endpoint.{
  LibcoapEndpoint, ParseAndResolveStatus, prepare_get_request, create_session, build_server_uri,
  parse_and_resolve_coap_uri,
}
use tfg_edhoc.Client.Resources.{
  Resource, acquired, coap_context, exchange, oscore_session, new_exchange,
}
use tfg_edhoc.Client.Confirmation.{Flags}
use tfg_edhoc.Client.Application.Run.{
  server_uri_buffer_size, Environment, RunResult, has_returned, failure, Run, notes, with_exchange,
  with_edhoc, with_oscore, clean_up,
}
use tfg_edhoc.Client.Application.Confirm.{confirm_keys, open_oscore_session, activate_oscore}
use tfg_edhoc.Client.Application.Handshake.{
  judge_message_3_response, finish_handshake, answer_message_2, negotiate, open_exchange,
  run_handshake,
}
use tfg_edhoc.Client.Application.Main.{gives_up, open_session, core_run_client}
use tfg_edhoc.Client.Resources.Laws.{made, releases_twice}
use tfg_edhoc.Client.Application.Outcome.{Outcome, Outcomes, final_flags}
use tfg_edhoc.Client.Application.Whole.{core_run_client-Outcomes}
use tfg_edhoc.Client.Application.NoFault.Steps.{
  KeepsAll, Returns, Returns-bind, Returns-option, Returns-checked, Returns-resolved,
  Returns-of_no_fault, resolved-Returns, created-Returns, opened-Returns, answer_message_2-Returns,
}

-- No fault, and a second release exactly if there was an OSCORE session and the run is over.
abbrev pub Frees : {C : Type 0} → Option (RunResult C) → Type 0
Frees none = ⊥
Frees (some r) = releases_twice r.log ≡ (has_returned r && ltb 0 (made oscore_session r.log))

of_Outcome : {C : Type 0} (final : Flags) (r : RunResult C) → Outcome final r → Frees (some r)
of_Outcome final r o = ground (arith, o)

of_Outcomes :
    {C : Type 0} (final : Flags) (o : Option (RunResult C)) → Returns o → Outcomes final o → Frees o
of_Outcomes final none r e = r
of_Outcomes final (some r) _ e = of_Outcome final r e

module _ {P O C K U A X F S : Type 0} (coap : Libcoap P O) (endpoint : LibcoapEndpoint P O U A X S)
    (oscore : LibcoapOscore X F S) (lib : Libedhoc C K) (keeps : KeepsAll lib)
    (get_pdu : (s : S) (u : U) (a : A) → create_request_pdu coap (endpoint.get s u a) ≢ none) where
  module _ (env : Environment P) (parameters : EdhocParameters) (d : CipherSuiteDetails)
      (m : CipherSuite) (valid : IsValid parameters)
      (consistent : Consistent (entries parameters.supported_cipher_suites))
      (coherent : Coherent parameters d m) where
    open_exchange-Returns :
        (resource_uri : List ℕ) (uri : U) (address : A) (context : X) (session : S)
        (is_set_up : Bool) (run : Run C X S)
        → Returns (
            open_exchange coap endpoint oscore lib env parameters resource_uri uri address context
              session is_set_up run)
    unfolding open_exchange negotiate
    open_exchange-Returns resource_uri uri address context session false run = tt
    open_exchange-Returns resource_uri uri address context session true run =
        let client = endpoint.post session uri address in
        Returns-option (new_exchange env.exchange_allocated _ env.payload_buffer) _ _ λ e.
          Returns-bind _ _
            (Returns-of_no_fault _ (
              resolve_negotiation_no_fault coap client lib keeps.keeps env.psa env.first env.second
                parameters env.payload_buffer
                (record { edhoc_context = run.resources.edhoc_context; exchange = e }) valid
                consistent))
            λ attempt eq.
              answer_message_2-Returns coap endpoint oscore lib keeps get_pdu env client
                resource_uri context attempt (notes (acquired exchange ∷ []) (with_exchange e run))

    set_up-Returns :
        (c : C) → Returns (initialize_edhoc_context_with_parameters lib env.psa (some c) parameters)
    unfolding initialize_edhoc_context_with_parameters
    set_up-Returns c = ground (arith, setup_context_no_fault lib env.psa c parameters d m coherent)

    run_handshake-Returns :
        (resource_uri : List ℕ) (uri : U) (address : A) (context : X) (session : S)
        (run : Run C X S)
        → Returns (
            run_handshake coap endpoint oscore lib env parameters resource_uri uri address context
              session run)
    unfolding run_handshake
    run_handshake-Returns resource_uri uri address context session run =
        Returns-bind _ _ (set_up-Returns run.resources.edhoc_context) λ (is_set_up, c) e.
          open_exchange-Returns resource_uri uri address context session is_set_up
            (with_edhoc (or_else c run.resources.edhoc_context) run)

    open_session-Returns :
        (flags : Flags) (resource_uri : List ℕ) (uri : U) (address : A)
        → Returns
            (open_session coap endpoint oscore lib env parameters flags resource_uri uri address)
    unfolding open_session
    open_session-Returns flags resource_uri uri address =
        Returns-checked (create_context endpoint.contexts).is_ok
          (create_context endpoint.contexts).context _ _ (created-Returns endpoint)
          λ context.
            Returns-checked (create_session endpoint context uri address).is_ok
              (create_session endpoint context uri address).session _ _
              (opened-Returns endpoint context uri address)
              λ session. run_handshake-Returns resource_uri uri address context session _

    core_run_client-Returns :
        (flags : Flags) → Returns (core_run_client coap endpoint oscore lib env parameters flags)
    unfolding core_run_client
    core_run_client-Returns flags =
        let uri_of = build_server_uri server_uri_buffer_size env.server_ip in
        Returns-option (uri_of (codes ".well-known/edhoc")) _ _ λ edhoc_uri.
          Returns-option (uri_of (codes "sensors/temperature")) _ _ λ resource_uri.
            Returns-resolved (parse_and_resolve_coap_uri endpoint edhoc_uri).status
              (parse_and_resolve_coap_uri endpoint edhoc_uri).target _ _
              (resolved-Returns endpoint edhoc_uri)
              λ (uri, address). open_session-Returns flags resource_uri uri address

    -- With libedhoc, the server's errors and the parameters as for the negotiation, and a PDU for each GET
    -- request, a run of the client neither reads nor calls through NULL nor writes outside an array,
    -- whatever else the server sends; and it releases a session, an exchange, a PDU or a context that it does not hold any more
    -- exactly if it has made an OSCORE session and has returned.
    pub core_run_client-Frees :
        (flags : Flags) → Frees (core_run_client coap endpoint oscore lib env parameters flags)
    core_run_client-Frees flags =
        of_Outcomes (final_flags coap env.confirmation flags)
          (core_run_client coap endpoint oscore lib env parameters flags)
          (core_run_client-Returns flags)
          (core_run_client-Outcomes coap endpoint oscore lib env parameters flags)

-- ===== src/Client/Application/Laws.antt =====
-- What a run of the client of src/core/app_client.c leaves behind, and what its success means.
use tfg_edhoc.Base.{◌*◌, ◌≡◌, refl, subst, ◌≢◌, ◌⊎◌, true, false, none, some, List, arith}
use tfg_edhoc.Common.Buffers.{ReadonlyBuffer, WritableBuffer, writable_buffer_is_writable}
use tfg_edhoc.Library.{Libedhoc, Libcoap}
use tfg_edhoc.Oscore.Sessions.{LibcoapOscore}
use tfg_edhoc.Suites.Parameters.{EdhocParameters}
use tfg_edhoc.Client.Exchange.{Exchange}
use tfg_edhoc.Client.Handshake.{
  Message2InitiatorStatus, respond_to_message_2, respond_to_message_2_ok,
}
use tfg_edhoc.Client.Send.{LibcoapClient}
use tfg_edhoc.Client.Endpoint.{LibcoapEndpoint}
use tfg_edhoc.Client.Resources.{
  ResourceEvent, coap_context, exchange_session, oscore_session, exchange, request_pdu,
}
use tfg_edhoc.Client.Resources.Laws.{made, freed}
use tfg_edhoc.Client.Confirmation.{Flags}
use tfg_edhoc.Client.Application.Run.{Environment, success, waiting, RunResult}
use tfg_edhoc.Client.Application.Run.{send_message}
use tfg_edhoc.Client.Application.Main.{core_run_client}
use tfg_edhoc.Client.Application.Outcome.{Outcome, Outcomes, final_flags}
use tfg_edhoc.Client.Application.Whole.{core_run_client-Outcomes}
use tfg_edhoc.Client.Confirmation.Laws.{HasContent, wait_for_confirmation-HasContent}

-- Every session and exchange is freed once, the context if there was a session, and the OSCORE session
-- twice.
abbrev pub Settled : List ResourceEvent → Type 0
Settled log =
    (freed exchange log ≡ made exchange log)
    × (freed exchange_session log ≡ made exchange_session log)
    × (freed coap_context log ≡ made exchange_session log)
    × (freed oscore_session log ≡ 2 * made oscore_session log)

module _ {P O C K U A X F S : Type 0} (coap : Libcoap P O) (endpoint : LibcoapEndpoint P O U A X S)
    (oscore : LibcoapOscore X F S) (lib : Libedhoc C K) where
  outcome :
      (env : Environment P) (parameters : EdhocParameters) (flags : Flags) (r : RunResult C)
      → core_run_client coap endpoint oscore lib env parameters flags ≡ some r
      → Outcome (final_flags coap env.confirmation flags) r
  outcome env parameters flags r e =
      subst (Outcomes (final_flags coap env.confirmation flags)) e
        (core_run_client-Outcomes coap endpoint oscore lib env parameters flags)

  -- A run that has returned has freed every exchange and every session of the handshake that it made
  -- exactly once, and libcoap's context exactly if it had made a session; an OSCORE session it has
  -- released twice.
  pub core_run_client-Settled :
      (env : Environment P) (parameters : EdhocParameters) (flags : Flags) (r : RunResult C)
      → core_run_client coap endpoint oscore lib env parameters flags ≡ some r
      → (r.status ≡ waiting) ⊎ Settled r.log
  core_run_client-Settled env parameters flags r e =
      ground (arith, outcome env parameters flags r e)

  -- A run that succeeds has made one OSCORE session and sent a request on it, and a response with the
  -- code 2.05 arrived while it waited.
  pub core_run_client_success :
      (env : Environment P) (parameters : EdhocParameters) (flags : Flags) (r : RunResult C)
      → core_run_client coap endpoint oscore lib env parameters flags ≡ some r
      → r.status ≡ success
      → (made oscore_session r.log ≡ 1)
        × (made request_pdu r.log ≡ 1)
        × HasContent coap env.confirmation.events
  core_run_client_success env parameters flags r e s =
      let (one_session, one_request, received, no_error) : (made oscore_session r.log ≡ 1)
          × (made request_pdu r.log ≡ 1)
          × ((final_flags coap env.confirmation flags).response_received ≡ true)
          × ((final_flags coap env.confirmation flags).error_response ≡ false) =
        ground (arith, s, outcome env parameters flags r e) in
      (
        one_session,
        one_request,
        wait_for_confirmation-HasContent coap env.confirmation.events env.confirmation.leisure
            (record flags { response_received = false }) refl received no_error,
      )

  -- Given a writable buffer, an error about Message 2 never reaches the server: the run hands the
  -- function that would send it an empty message, which sends nothing.
  pub refused_message_2-send_message :
      (client : LibcoapClient P O) (e : Exchange) (c : C) (message_2 : ReadonlyBuffer)
      (buffer : WritableBuffer)
      → writable_buffer_is_writable buffer ≡ true
      → (respond_to_message_2 lib (some c) message_2 buffer).status ≢ Message2InitiatorStatus.ok
      → send_message coap client
          (some e)
          (respond_to_message_2 lib (some c) message_2 buffer).buffer
        ≡ (false, none)
  unfolding send_message
  refused_message_2-send_message client e c message_2 buffer w refused =
      ground (arith, refused, respond_to_message_2_ok lib c message_2 buffer w)

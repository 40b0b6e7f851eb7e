-- ===== src/Client/Application/Steps.antt =====
-- The run of the client of src/core/app_client.c from the answer to Message 1 on ends in one of its ways.
use tfg_edhoc.Base.{ℕ, Option, none, some, List, [], ◌∷◌, arith, or_else}
use tfg_edhoc.Common.Buffers.{ReadonlyBuffer}
use tfg_edhoc.Library.{Libedhoc, Libcoap}
use tfg_edhoc.Oscore.Sessions.{LibcoapOscore}
use tfg_edhoc.Oscore.Sessions
use tfg_edhoc.Client.Exchange.{Exchange, WaitAndGetResult, exchange_wait_and_get}
use tfg_edhoc.Client.Handshake.{respond_to_message_2}
use tfg_edhoc.Client.Send.{LibcoapClient, send_message_3}
use tfg_edhoc.Client.Negotiation.{AttemptResult, Attempt}
use tfg_edhoc.Client.Endpoint.{LibcoapEndpoint, parse_and_resolve_coap_uri}
use tfg_edhoc.Client.Resources.{acquired, oscore_session, cleanup_resources}
use tfg_edhoc.Client.Application.Run.{
  Environment, failure, Run, notes, with_exchange, with_edhoc, with_oscore, clean_up,
}
use tfg_edhoc.Client.Application.Confirm.{confirm_keys, open_oscore_session, activate_oscore}
use tfg_edhoc.Client.Application.Handshake.{
  judge_message_3_response, finish_handshake, answer_message_2,
}
use tfg_edhoc.Client.Application.Outcome.{
  Outcomes, IsOpen, IsConfirming, final_flags, with_exchange-IsOpen, with_edhoc-IsOpen,
  clean_up-Outcome, Outcomes-bind,
}

module _ {P O C K U A X F S : Type 0} (coap : Libcoap P O) (endpoint : LibcoapEndpoint P O U A X S)
    (oscore : LibcoapOscore X F S) (lib : Libedhoc C K) where
  confirm_keys-Outcomes :
      (attempt : Attempt P) (uri : U) (address : A) (session : S) (run : Run C X S)
      → IsConfirming run
      → Outcomes
          (final_flags coap attempt run.flags)
          (confirm_keys coap endpoint oscore lib attempt uri address session run)
  unfolding confirm_keys clean_up cleanup_resources
  confirm_keys-Outcomes attempt uri address session run o = ground (arith, o)

  open_oscore_session-Outcomes :
      (attempt : Attempt P) (context : X) (uri : U) (address : A) (run : Run C X S)
      → IsOpen run
      → Outcomes
          (final_flags coap attempt run.flags)
          (open_oscore_session coap endpoint oscore lib attempt context uri address run)
  unfolding open_oscore_session
  open_oscore_session-Outcomes attempt context uri address run o =
      opened (Sessions.create_session lib oscore (some run.resources.edhoc_context) context)
    where
      opened :
          (made : Option S × X)
          → Outcomes (final_flags coap attempt run.flags) (elim made.0 [
            | none ↦ some (clean_up lib failure (with_oscore none made.1 run))
            | some s ↦
                confirm_keys coap endpoint oscore lib attempt uri address s
                  (notes (acquired oscore_session ∷ []) (with_oscore (some s) made.1 run))
          ])
      opened (none, x) =
          clean_up-Outcome lib (final_flags coap attempt run.flags) (with_oscore none x run)
            (ground (arith, o))
      opened (some s, x) =
          confirm_keys-Outcomes attempt uri address s
            (notes (acquired oscore_session ∷ []) (with_oscore (some s) x run)) (ground (arith, o))

  activate_oscore-Outcomes :
      (attempt : Attempt P) (resource_uri : List ℕ) (context : X) (run : Run C X S)
      → IsOpen run
      → Outcomes
          (final_flags coap attempt run.flags)
          (activate_oscore coap endpoint oscore lib attempt resource_uri context run)
  unfolding activate_oscore
  activate_oscore-Outcomes attempt resource_uri context run o =
      let resolved = parse_and_resolve_coap_uri endpoint resource_uri in
      ground (
        arith,
        clean_up-Outcome lib (final_flags coap attempt run.flags) run o,
        Outcomes-bind (final_flags coap attempt run.flags) resolved.target
            (λ (uri, address).
              open_oscore_session coap endpoint oscore lib attempt context uri address run)
            (λ (u, a). open_oscore_session-Outcomes attempt context u a run o),
      )

  judge_message_3_response-Outcomes :
      (attempt : Attempt P) (resource_uri : List ℕ) (context : X) (answer : Option WaitAndGetResult)
      (run : Run C X S)
      → IsOpen run
      → Outcomes (final_flags coap attempt run.flags) (
          judge_message_3_response coap endpoint oscore lib attempt resource_uri context answer run)
  unfolding judge_message_3_response
  judge_message_3_response-Outcomes attempt resource_uri context answer run o = ground (
    arith,
    clean_up-Outcome lib (final_flags coap attempt run.flags) run o,
    activate_oscore-Outcomes attempt resource_uri context run o,
  )

  finish_handshake-Outcomes :
      (env : Environment P) (client : LibcoapClient P O) (resource_uri : List ℕ) (context : X)
      (message_3 : ReadonlyBuffer) (e : Exchange) (run : Run C X S)
      → IsOpen run
      → Outcomes (final_flags coap env.confirmation run.flags) (
          finish_handshake coap endpoint oscore lib env client resource_uri context message_3 e run)
  unfolding finish_handshake
  finish_handshake-Outcomes env client resource_uri context message_3 e run o =
      Outcomes-bind (final_flags coap env.confirmation run.flags)
        (send_message_3 coap client lib (some e) (some run.resources.edhoc_context) message_3) _
        λ (status, sent). Outcomes-bind (final_flags coap env.confirmation run.flags) sent _ λ r.
          let (answer, e') =
            exchange_wait_and_get coap env.third.events env.third.leisure r.exchange in
          ground (
            arith,
            clean_up-Outcome lib (final_flags coap env.confirmation run.flags)
                (with_exchange r.exchange run) (with_exchange-IsOpen r.exchange run o),
            judge_message_3_response-Outcomes env.confirmation resource_uri context answer
                (with_exchange e' run) (with_exchange-IsOpen e' run o),
          )

  pub answer_message_2-Outcomes :
      (env : Environment P) (client : LibcoapClient P O) (resource_uri : List ℕ) (context : X)
      (attempt : AttemptResult C) (before : Run C X S)
      → IsOpen before
      → Outcomes
          (final_flags coap env.confirmation before.flags)
          (answer_message_2 coap endpoint oscore lib env client resource_uri context attempt before)
  unfolding answer_message_2
  answer_message_2-Outcomes env client resource_uri context attempt before o =
      let e = attempt.resources.exchange in
      let c = attempt.resources.edhoc_context in
      let run = with_exchange e (with_edhoc c before) in
      let run-o = with_exchange-IsOpen e (with_edhoc c before) (with_edhoc-IsOpen c before o) in
      let responded =
        respond_to_message_2 lib (some c) attempt.response_payload env.payload_buffer in
      let after = with_edhoc (or_else responded.context c) run in
      let after-o = with_edhoc-IsOpen (or_else responded.context c) run run-o in
      ground (
        arith,
        clean_up-Outcome lib (final_flags coap env.confirmation before.flags) run run-o,
        clean_up-Outcome lib (final_flags coap env.confirmation before.flags) after after-o,
        λ (x : Exchange).
            clean_up-Outcome lib (final_flags coap env.confirmation before.flags)
              (with_exchange x after) (with_exchange-IsOpen x after after-o),
        finish_handshake-Outcomes env client resource_uri context responded.buffer e after after-o,
      )

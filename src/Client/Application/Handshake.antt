-- ===== src/Client/Application/Handshake.antt =====
-- `core_run_client` of src/core/app_client.c from the set-up of the EDHOC context to the answer to Message
-- 3. A result `none` is a memory fault.
use tfg_edhoc.Base.{Bool, ℕ, true, false, Option, none, some, List, [], ◌∷◌, or_else, ◌>>=◌}
use tfg_edhoc.Common.Buffers.{ReadonlyBuffer}
use tfg_edhoc.Library.{Libedhoc, Libcoap}
use tfg_edhoc.Coap.{StatusCoap}
use tfg_edhoc.Oscore.Sessions.{LibcoapOscore}
use tfg_edhoc.Suites.Parameters.{EdhocParameters}
use tfg_edhoc.Client.Exchange.{Exchange, WaitAndGetResult, exchange_wait_and_get}
use tfg_edhoc.Client.Handshake.{Message2InitiatorStatus, respond_to_message_2}
use tfg_edhoc.Client.Renegotiate.{initialize_edhoc_context_with_parameters}
use tfg_edhoc.Client.Send.{LibcoapClient, send_message_3}
use tfg_edhoc.Client.Negotiation.{AttemptStatus, AttemptResult, Attempt, resolve_negotiation}
use tfg_edhoc.Client.Endpoint.{LibcoapEndpoint}
use tfg_edhoc.Client.Resources.{Resource, acquired, SessionData, new_exchange}
use tfg_edhoc.Client.Application.Run.{
  Environment, failure, waiting, RunResult, Run, ends, notes, with_exchange, with_edhoc, clean_up,
  send_message,
}
use tfg_edhoc.Client.Application.Confirm.{activate_oscore}

module _ {P O C K U A X F S : Type 0} (coap : Libcoap P O) (endpoint : LibcoapEndpoint P O U A X S)
    (oscore : LibcoapOscore X F S) (lib : Libedhoc C K) where
  -- From the answer to Message 3 on.
  unfoldable pub judge_message_3_response :
      Attempt P → List ℕ → X → Option WaitAndGetResult → Run C X S → Option (RunResult C)
  unfolding activate_oscore
  judge_message_3_response attempt resource_uri context none run = some (ends waiting run)
  judge_message_3_response attempt resource_uri context (some answer) run = elim answer.status [
    | StatusCoap.err ↦ some (clean_up lib failure run)
    | StatusCoap.ok ↦ elim answer.response_is_error [
      | true ↦ some (clean_up lib failure run)
      | false ↦ activate_oscore coap endpoint oscore lib attempt resource_uri context run
    ]
  ]

  -- Message 3 is sent, and its answer waited for.
  unfoldable pub finish_handshake :
      Environment P
      → LibcoapClient P O
      → List ℕ
      → X
      → ReadonlyBuffer
      → Exchange
      → Run C X S
      → Option (RunResult C)
  unfolding judge_message_3_response
  finish_handshake env client resource_uri context message_3 e run =
      send_message_3 coap client lib (some e) (some run.resources.edhoc_context) message_3
      >>= λ (status, sent). sent >>= λ r. elim status [
        | StatusCoap.err ↦ some (clean_up lib failure (with_exchange r.exchange run))
        | StatusCoap.ok ↦
            let (answer, e') =
              exchange_wait_and_get coap env.third.events env.third.leisure r.exchange in
            judge_message_3_response env.confirmation resource_uri context answer
              (with_exchange e' run)
      ]

  -- From the answer to Message 1 on; a Message 2 that is refused ends the run.
  unfoldable pub answer_message_2 :
      Environment P
      → LibcoapClient P O
      → List ℕ
      → X
      → AttemptResult C
      → Run C X S
      → Option (RunResult C)
  unfolding respond_to_message_2 send_message finish_handshake
  answer_message_2 env client resource_uri context attempt before =
      let e = attempt.resources.exchange in
      let c = attempt.resources.edhoc_context in
      let run = with_exchange e (with_edhoc c before) in
      let responded =
        respond_to_message_2 lib (some c) attempt.response_payload env.payload_buffer in
      let after = with_edhoc (or_else responded.context c) run in
      elim attempt.status [
        | AttemptStatus.waiting ↦ some (ends waiting run)
        | AttemptStatus.ok ↦ elim responded.status [
          | Message2InitiatorStatus.ok ↦
              finish_handshake env client resource_uri context responded.buffer e after
          | _ ↦ some (elim (send_message coap client (some e) responded.buffer).1 [
            | none ↦ clean_up lib failure after
            | some sent ↦ clean_up lib failure (with_exchange sent.exchange after)
          ])
        ]
        | _ ↦ some (clean_up lib failure run)
      ]

  -- From the negotiation on.
  unfoldable pub negotiate :
      Environment P
      → EdhocParameters
      → LibcoapClient P O
      → List ℕ
      → X
      → Exchange
      → Run C X S
      → Option (RunResult C)
  unfolding resolve_negotiation answer_message_2
  negotiate env parameters client resource_uri context e run =
      resolve_negotiation coap client lib env.psa env.first env.second parameters env.payload_buffer
        (record { edhoc_context = run.resources.edhoc_context; exchange = e })
      >>= λ attempt.
          answer_message_2 env client resource_uri context attempt
            (notes (acquired Resource.exchange ∷ []) (with_exchange e run))

  -- From the creation of the exchange on, whose EDHOC context is set up or not.
  unfoldable pub open_exchange :
      Environment P
      → EdhocParameters
      → List ℕ
      → U
      → A
      → X
      → S
      → Bool
      → Run C X S
      → Option (RunResult C)
  unfolding negotiate
  open_exchange env parameters resource_uri uri address context session false run =
      some (clean_up lib failure run)
  open_exchange env parameters resource_uri uri address context session true run =
      let session_data : SessionData X S = record {
        context = some context;
        session = some session;
      } in
      elim (new_exchange env.exchange_allocated (some session_data) env.payload_buffer) [
        | none ↦ some (clean_up lib failure run)
        | some e ↦
            negotiate env parameters (endpoint.post session uri address) resource_uri context e run
      ]

  -- From the set-up of the EDHOC context on.
  unfoldable pub run_handshake :
      Environment P → EdhocParameters → List ℕ → U → A → X → S → Run C X S → Option (RunResult C)
  unfolding initialize_edhoc_context_with_parameters open_exchange
  run_handshake env parameters resource_uri uri address context session run =
      initialize_edhoc_context_with_parameters lib env.psa (some run.resources.edhoc_context)
        parameters
      >>= λ (is_set_up, c).
          open_exchange env parameters resource_uri uri address context session is_set_up
            (with_edhoc (or_else c run.resources.edhoc_context) run)

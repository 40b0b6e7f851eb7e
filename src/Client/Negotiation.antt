-- ===== src/Client/Negotiation.antt =====
-- The negotiation of src/core/app_client.c: `cli_edhoc_perform_negotiation_attempt` and
-- `cli_edhoc_resolve_negotiation`. Of the client's resources the EDHOC context and the exchange take
-- part; `coap_io_process` answers each attempt with a list of events.
-- A result `none` is a memory fault.
pub mod Keeps
pub mod Laws
use tfg_edhoc.Base.{
  ℕ, zero, suc, ◌+◌, ◌-◌, ◌*◌, ◌/◌, ◌%◌, ◌≤◌, ◌<◌, ◌≡◌, refl, sym, ap, subst, ◌∙◌, ◌≢◌, ◌⊎◌, inl,
  inr, Bool, true, false, not, ◌&&◌, ◌||◌, Option, none, some, List, [], ◌∷◌, ◌++◌, map, append-nil,
  append_assoc, arith, ltb, leb, ◌==◌, if◌then◌else◌, is_some, or_else, same_address, ◌>>=◌,
  Bool-cases, Option-cases, same_address_eq, same_address_refl, length, get_elem?, write, replicate,
  take, last_or, length-append, length-replicate, length-map, write-append, All, write_next,
  take-append, All-append, drop,
}
use tfg_edhoc.Common.Buffers.{ReadonlyBuffer, WritableBuffer, empty_buffer}
use tfg_edhoc.Library.{Libedhoc, Libcoap}
use tfg_edhoc.Coap.{StatusCoap}
use tfg_edhoc.Suites.Parameters.{EdhocParameters}
use tfg_edhoc.Suites.Negotiate.{
  NegotiationStatus, NegotiationResult, negotiate_suites, error_suggests_renegotiation,
}
use tfg_edhoc.Client.Exchange.{Exchange, IoEvent, WaitAndGetResult, exchange_wait_and_get}
use tfg_edhoc.Client.Handshake.{ComposeStatus, compose_message_1}
use tfg_edhoc.Client.Renegotiate.{reset_edhoc_context_with_new_suites_data}
use tfg_edhoc.Client.Send.{LibcoapClient, send_message_1}

pub record Resources (C : Type 0) : Type 0 where
  pub edhoc_context : C
  pub exchange : Exchange

-- `waiting` while the client still waits for the events behind the given ones.
pub data AttemptStatus : Type 0 where
  ok renegotiate err waiting : AttemptStatus

pub record AttemptResult (C : Type 0) : Type 0 where
  pub status : AttemptStatus
  pub response_payload : ReadonlyBuffer
  pub resources : Resources C

-- What an attempt meets: the events, and the leisure of the session.
pub record Attempt (P : Type 0) : Type 0 where
  pub events : List (IoEvent P)
  pub leisure : ℕ

abbrev pub attempt_result :
    {C : Type 0} → AttemptStatus → ReadonlyBuffer → Resources C → AttemptResult C
attempt_result s b r = record { status = s; response_payload = b; resources = r }

abbrev pub failure : {C : Type 0} → Resources C → AttemptResult C
failure r = attempt_result err empty_buffer r

abbrev pub with_exchange : {C : Type 0} → Resources C → Exchange → Resources C
with_exchange r e = record r { exchange = e }

module _ {P O C K : Type 0} (coap : Libcoap P O) (client : LibcoapClient P O)
    (lib : Libedhoc C K) where
  -- From the answer to Message 1 on.
  unfoldable pub judge_response : WaitAndGetResult → Resources C → Option (AttemptResult C)
  judge_response answer resources = elim answer.status [
    | StatusCoap.err ↦ some (failure resources)
    | StatusCoap.ok ↦
        let suggested = error_suggests_renegotiation lib answer.response in
        if answer.response_is_error
        then (suggested >>= λ again.
            some (attempt_result (if again then renegotiate else ok) answer.response resources))
        else some (attempt_result ok answer.response resources)
  ]

  unfoldable pub await_response : Attempt P → Resources C → Option (AttemptResult C)
  unfolding judge_response
  await_response attempt resources =
      let (answer, e) =
        exchange_wait_and_get coap attempt.events attempt.leisure resources.exchange in
      elim answer [
        | none ↦ some (attempt_result waiting empty_buffer (with_exchange resources e))
        | some a ↦ judge_response a (with_exchange resources e)
      ]

  unfoldable pub perform_negotiation_attempt :
      Attempt P → WritableBuffer → Resources C → Option (AttemptResult C)
  unfolding await_response
  perform_negotiation_attempt attempt payload_buffer before =
      let composed = compose_message_1 lib before.edhoc_context payload_buffer in
      let resources = record before {
        edhoc_context = or_else composed.context before.edhoc_context;
      } in
      elim composed.status [
        | ComposeStatus.ok ↦
            send_message_1 coap client lib (some resources.exchange) composed.buffer
            >>= λ (status, sent). sent >>= λ r. elim status [
              | StatusCoap.err ↦ some (failure (with_exchange resources r.exchange))
              | StatusCoap.ok ↦ await_response attempt (with_exchange resources r.exchange)
            ]
        | _ ↦ some (failure resources)
      ]

  -- After a first attempt that asks for other suites.
  unfoldable pub renegotiate_suites :
      Bool
      → Attempt P
      → EdhocParameters
      → WritableBuffer
      → AttemptResult C
      → Option (AttemptResult C)
  unfolding perform_negotiation_attempt
  renegotiate_suites psa second parameters payload_buffer first =
      negotiate_suites lib parameters.supported_cipher_suites first.response_payload
      >>= λ negotiation. elim negotiation.status [
        | NegotiationStatus.ok ↦
            reset_edhoc_context_with_new_suites_data lib psa (some first.resources.edhoc_context)
              parameters negotiation.renegotiation_suites
            >>= λ (was_reset, context).
                let resources = record (first.resources) {
                  edhoc_context = or_else context first.resources.edhoc_context;
                } in
                if not was_reset
                then some (failure resources)
                else perform_negotiation_attempt second payload_buffer resources
        | _ ↦ some (failure first.resources)
      ]

  unfoldable pub resolve_negotiation :
      Bool
      → Attempt P
      → Attempt P
      → EdhocParameters
      → WritableBuffer
      → Resources C
      → Option (AttemptResult C)
  unfolding renegotiate_suites
  resolve_negotiation psa first second parameters payload_buffer resources =
      perform_negotiation_attempt first payload_buffer resources >>= λ result. elim result.status [
        | renegotiate ↦ renegotiate_suites psa second parameters payload_buffer result
        | _ ↦ some result
      ]

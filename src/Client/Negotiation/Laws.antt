-- ===== src/Client/Negotiation/Laws.antt =====
-- Memory faults of the negotiation of src/core/app_client.c.
use tfg_edhoc.Base.{
  ◌≡◌, refl, subst, ◌≢◌, ◌⊎◌, inl, inr, Bool, true, false, Option, none, some, arith, or_else,
  ◌>>=◌, Option-cases,
}
use tfg_edhoc.Common.Buffers.{WritableBuffer, empty_buffer}
use tfg_edhoc.Library.{Libedhoc, Libcoap}
use tfg_edhoc.Coap.{StatusCoap}
use tfg_edhoc.Suites.Parameters.{EdhocParameters, IsValid, entries}
use tfg_edhoc.Suites.Negotiate.{NegotiationStatus, negotiate_suites, error_suggests_renegotiation}
use tfg_edhoc.Client.Exchange.{Exchange, WaitAndGetResult, exchange_wait_and_get}
use tfg_edhoc.Client.Handshake.{ComposeStatus, compose_message_1}
use tfg_edhoc.Client.Renegotiate.{reset_edhoc_context_with_new_suites_data}
use tfg_edhoc.Client.Renegotiate.Prefix.{Consistent}
use tfg_edhoc.Client.Send.{LibcoapClient, SendResult, send_message_1}
use tfg_edhoc.Client.Send.Laws.{Sent, send_message_1-Sent}
use tfg_edhoc.Client.Negotiation.{
  Resources, AttemptStatus, AttemptResult, Attempt, renegotiate, waiting, with_exchange, failure,
  judge_response, attempt_result, await_response, perform_negotiation_attempt, renegotiate_suites,
  resolve_negotiation,
}
use tfg_edhoc.Client.Negotiation.Keeps.{
  Keeps, compose_message_1-InBounds, negotiate_suites_no_fault, negotiated_reset,
  error_suggests_no_fault,
}

negotiation_cases :
    (s : NegotiationStatus) → (s ≡ NegotiationStatus.ok) ⊎ (s ≢ NegotiationStatus.ok)
negotiation_cases NegotiationStatus.ok = inl refl
negotiation_cases NegotiationStatus.no_common_suites = inr (λ h. cc)
negotiation_cases NegotiationStatus.err_empty_error_buffer = inr (λ h. cc)
negotiation_cases NegotiationStatus.err_invalid_supported_suites = inr (λ h. cc)
negotiation_cases NegotiationStatus.err_internal_buffer_too_small = inr (λ h. cc)
negotiation_cases NegotiationStatus.err_processing_error = inr (λ h. cc)

compose_cases : (s : ComposeStatus) → (s ≡ ComposeStatus.ok) ⊎ (s ≢ ComposeStatus.ok)
compose_cases ComposeStatus.ok = inl refl
compose_cases ComposeStatus.err_invalid_compose_buffer = inr (λ h. cc)
compose_cases ComposeStatus.err_null_context = inr (λ h. cc)
compose_cases ComposeStatus.err_edhoc_compose = inr (λ h. cc)
compose_cases ComposeStatus.err_empty_compose = inr (λ h. cc)

attempt_cases : (s : AttemptStatus) → (s ≡ renegotiate) ⊎ (s ≢ renegotiate)
attempt_cases AttemptStatus.ok = inr (λ h. cc)
attempt_cases AttemptStatus.renegotiate = inl refl
attempt_cases AttemptStatus.err = inr (λ h. cc)
attempt_cases AttemptStatus.waiting = inr (λ h. cc)

module _ {P O C K : Type 0} (coap : Libcoap P O) (client : LibcoapClient P O)
    (lib : Libedhoc C K) where
  -- The attempt ended without a fault, and asks for other suites only with an error that says so.
  abbrev pub Attempted : Option (AttemptResult C) → Type 0
  Attempted none = ⊥
  Attempted (some r) =
      r.status ≡ renegotiate → error_suggests_renegotiation lib r.response_payload ≡ some true

  module _ (keeps : Keeps lib) where
    judge_response-Attempted :
        (answer : WaitAndGetResult) (r : Resources C)
        → Attempted (judge_response coap client lib answer r)
    unfolding judge_response
    judge_response-Attempted answer r =
        elim (Option-cases (error_suggests_renegotiation lib answer.response)) [
          | inl n ↦ absurd (error_suggests_no_fault lib keeps answer.response n)
          | inr (again, n) ↦ ground (arith, n)
        ]

    await_response-Attempted :
        (attempt : Attempt P) (r : Resources C)
        → Attempted (await_response coap client lib attempt r)
    unfolding await_response
    await_response-Attempted attempt r =
        let (answer, e) = exchange_wait_and_get coap attempt.events attempt.leisure r.exchange in
        of_answer answer e
      where
        of_answer :
            (answer : Option WaitAndGetResult) (e : Exchange)
            → Attempted (elim answer [
              | none ↦ some (attempt_result waiting empty_buffer (with_exchange r e))
              | some a ↦ judge_response coap client lib a (with_exchange r e)
            ])
        of_answer none e = λ h. cc
        of_answer (some a) e = judge_response-Attempted a (with_exchange r e)

    after_send-Attempted :
        (attempt : Attempt P) (r : Resources C) (e : Exchange)
        (o : Option (StatusCoap × Option (SendResult P)))
        → Sent coap client lib false e o
        → Attempted (
            o >>= (λ (status, sent). sent >>= λ x. elim status [
              | StatusCoap.err ↦ some (failure (with_exchange r x.exchange))
              | StatusCoap.ok ↦ await_response coap client lib attempt (with_exchange r x.exchange)
            ]))
    after_send-Attempted attempt r e none s = s
    after_send-Attempted attempt r e (some (status, none)) s = s
    after_send-Attempted attempt r e (some (StatusCoap.err, some x)) s = λ h. cc
    after_send-Attempted attempt r e (some (StatusCoap.ok, some x)) s =
        await_response-Attempted attempt (with_exchange r x.exchange)

    perform_negotiation_attempt-Attempted :
        (attempt : Attempt P) (payload : WritableBuffer) (r : Resources C)
        → Attempted (perform_negotiation_attempt coap client lib attempt payload r)
    unfolding perform_negotiation_attempt
    perform_negotiation_attempt-Attempted attempt payload r =
        let composed = compose_message_1 lib r.edhoc_context payload in
        let resources = record r { edhoc_context = or_else composed.context r.edhoc_context } in
        elim (compose_cases composed.status) [
          | inl ok ↦
              rw (perform_negotiation_attempt, ok)
                (after_send-Attempted attempt resources r.exchange
                  (send_message_1 coap client lib (some r.exchange) composed.buffer)
                  (send_message_1-Sent coap client lib r.exchange composed.buffer keeps.flow_fits
                    (compose_message_1-InBounds lib keeps r.edhoc_context payload ok)))
          | inr n ↦ ground (arith, n)
        ]

    renegotiate_suites-Attempted :
        (psa : Bool) (second : Attempt P) (p : EdhocParameters) (payload : WritableBuffer)
        (first : AttemptResult C)
        → IsValid p
        → Consistent (entries p.supported_cipher_suites)
        → error_suggests_renegotiation lib first.response_payload ≡ some true
        → Attempted (renegotiate_suites coap client lib psa second p payload first)
    unfolding renegotiate_suites
    renegotiate_suites-Attempted psa second p payload first valid co wrong =
        elim (Option-cases
          (negotiate_suites lib p.supported_cipher_suites first.response_payload)) [
            | inl n ↦ absurd (
                negotiate_suites_no_fault lib keeps p.supported_cipher_suites first.response_payload
                  wrong valid.details_valid co.0 n)
            | inr (result, n) ↦ elim (negotiation_cases result.status) [
              | inr other ↦ rw n (ground (arith, other))
              | inl ok ↦
                  elim (Option-cases (
                    reset_edhoc_context_with_new_suites_data lib psa
                      (some first.resources.edhoc_context) p result.renegotiation_suites)) [
                        | inl m ↦ absurd (
                            negotiated_reset lib keeps psa first.resources.edhoc_context p
                              first.response_payload result wrong valid co n ok m)
                        | inr ((was_reset, context), m) ↦
                            rw (n, ok, m)
                              (ground (
                                arith,
                                perform_negotiation_attempt-Attempted second payload
                                    (record (first.resources) {
                                      edhoc_context = or_else context first.resources.edhoc_context;
                                    }),
                              ))
                      ]
            ]
          ]

    resolve_negotiation-Attempted :
        (psa : Bool) (first second : Attempt P) (p : EdhocParameters) (payload : WritableBuffer)
        (r : Resources C)
        → IsValid p
        → Consistent (entries p.supported_cipher_suites)
        → Attempted (resolve_negotiation coap client lib psa first second p payload r)
    unfolding resolve_negotiation
    resolve_negotiation-Attempted psa first second p payload r valid co =
        after_first (perform_negotiation_attempt coap client lib first payload r)
          (perform_negotiation_attempt-Attempted first payload r)
      where
        after_first :
            (o : Option (AttemptResult C))
            → Attempted o
            → Attempted (
                o >>= λ result. elim result.status [
                  | renegotiate ↦ renegotiate_suites coap client lib psa second p payload result
                  | _ ↦ some result
                ])
        after_first none h = h
        after_first (some result) h = elim (attempt_cases result.status) [
          | inl again ↦
              rw again (renegotiate_suites-Attempted psa second p payload result valid co (h again))
          | inr over ↦ ground (arith, over)
        ]

    -- With valid parameters whose suites are one struct each with its metadata and functions, a libedhoc
    -- that keeps to what it documents, and a peer whose errors report at most 25 suites, the negotiation
    -- makes no memory fault, whatever else the peer sends: both attempts, the choice of new suites and
    -- the new set-up of the context.
    pub resolve_negotiation_no_fault :
        (psa : Bool) (first second : Attempt P) (p : EdhocParameters) (payload : WritableBuffer)
        (r : Resources C)
        → IsValid p
        → Consistent (entries p.supported_cipher_suites)
        → resolve_negotiation coap client lib psa first second p payload r ≢ none
    resolve_negotiation_no_fault psa first second p payload r valid co fault =
        subst Attempted fault (resolve_negotiation-Attempted psa first second p payload r valid co)

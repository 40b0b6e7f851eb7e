-- ===== src/Server/Handshake/Responders.antt =====
-- The responders srv_m1_responder.c and srv_m3_responder.c of src/edhoc/server/handshake, with the
-- builders of their results, and the adapters srv_coap_m1_process.c and srv_coap_m3_process.c of
-- src/coap/server/edhoc_message_process, which map their statuses to response codes.
use tfg_edhoc.Base.{
  ◌<◌, ◌≡◌, inl, inr, true, not, Option, some, [], arith, if◌then◌else◌, or_else, Option-cases,
}
use tfg_edhoc.Library.{Libedhoc, PduCode, changed, bad_request, internal_error}
use tfg_edhoc.Common.Buffers.{
  ReadonlyBuffer, WritableBuffer, empty_buffer, readonly_buffer_has_content,
  writable_buffer_is_writable,
}
use tfg_edhoc.Server.Handshake.Message1
use tfg_edhoc.Server.Handshake.Message1.{process_message_1}
use tfg_edhoc.Server.Handshake.Message2
use tfg_edhoc.Server.Handshake.Message2.{compose_message_2}
use tfg_edhoc.Server.Handshake.Message3
use tfg_edhoc.Server.Handshake.Message3.{process_message_3}

pub data Responder1Status : Type 0 where
  ok err_invalid_response_buffer err_received_unexpected_message_3 err_message_1_parse_failed
        err_message_1_process_failed err_message_2_compose_failed :
      Responder1Status

pub record Responder1Result (C : Type 0) : Type 0 where
  pub status : Responder1Status
  pub response : ReadonlyBuffer
  pub context : Option C

pub data Responder3Status : Type 0 where
  ok err_invalid_response_buffer err_message_3_process : Responder3Status

pub record Responder3Result (C : Type 0) : Type 0 where
  pub status : Responder3Status
  pub response : ReadonlyBuffer
  pub context : Option C

unfoldable pub process_message_1_result : Responder1Status → PduCode
process_message_1_result ok = changed
process_message_1_result err_message_1_process_failed = bad_request
process_message_1_result err_invalid_response_buffer = internal_error
process_message_1_result err_message_2_compose_failed = internal_error
process_message_1_result err_received_unexpected_message_3 = internal_error
process_message_1_result err_message_1_parse_failed = internal_error

unfoldable pub process_message_3_result : Responder3Status → PduCode
process_message_3_result ok = changed
process_message_3_result err_message_3_process = bad_request
process_message_3_result err_invalid_response_buffer = internal_error

abbrev pub result_1 :
    {C : Type 0} → Responder1Status → ReadonlyBuffer → Option C → Responder1Result C
result_1 s b c = record { status = s; response = b; context = c }

abbrev pub result_3 :
    {C : Type 0} → Responder3Status → ReadonlyBuffer → Option C → Responder3Result C
result_3 s b c = record { status = s; response = b; context = c }

module _ {C K : Type 0} (lib : Libedhoc C K) where
  unfoldable pub respond_to_message_1 :
      ReadonlyBuffer → Option C → WritableBuffer → Responder1Result C
  respond_to_message_1 message_1 context response =
      let processed = process_message_1 lib message_1 context response in
      let composed = compose_message_2 lib processed.context response in
      if not (writable_buffer_is_writable response)
      then result_1 err_invalid_response_buffer empty_buffer context
      else elim processed.status [
        | Message1.ok ↦ elim composed.status [
          | Message2.ok ↦ result_1 ok composed.buffer composed.context
          | _ ↦ result_1 err_message_2_compose_failed empty_buffer composed.context
        ]
        | _ ↦ result_1 err_message_1_process_failed processed.error_buffer processed.context
      ]

  -- Success hands out a view of no bytes: Message 4 is not sent.
  unfoldable pub respond_to_message_3 :
      Option C → ReadonlyBuffer → WritableBuffer → Responder3Result C
  respond_to_message_3 context message_3 response =
      let processed = process_message_3 lib context message_3 in
      if not (writable_buffer_is_writable response)
      then result_3 err_invalid_response_buffer empty_buffer context
      else elim processed.status [
        | Message3.ok ↦
            result_3 ok (record { bytes = response.bytes; length = 0 }) processed.context
        | _ ↦ result_3 err_message_3_process empty_buffer processed.context
      ]

  -- libedhoc accepted the Message 1 and wrote a Message 2, which is the response and is not empty.
  abbrev pub AnswersWithMessage2 : ReadonlyBuffer → C → WritableBuffer → Responder1Result C → Type 0
  AnswersWithMessage2 message_1 c response r =
      let (accepted, c1) = lib.message_1_process c message_1 in
      let o = lib.message_2_compose c1 (or_else response.bytes []) response.capacity in
      (accepted ≡ true)
      × (o.success ≡ true)
      × (r.context ≡ some o.context)
      × (r.response ≡ record { bytes = some o.bytes; length = o.written })
      × (0 < o.written)

  -- A Message 1 is answered with success only after libedhoc accepted it and wrote a Message 2, which
  -- is the response and is not empty.
  pub respond_to_message_1_ok :
      (message_1 : ReadonlyBuffer) (c : C) (response : WritableBuffer)
      → (respond_to_message_1 message_1 (some c) response).status ≡ ok
      → AnswersWithMessage2 message_1 c response (respond_to_message_1 message_1 (some c) response)
  unfolding respond_to_message_1 process_message_1 compose_message_2
  respond_to_message_1_ok message_1 c response h = ground arith

  -- A context that was given is never lost: each answer comes with a context.
  pub respond_to_message_1_context :
      (message_1 : ReadonlyBuffer) (c : C) (response : WritableBuffer)
      → (c' : C) × ((respond_to_message_1 message_1 (some c) response).context ≡ some c')
  unfolding respond_to_message_1 process_message_1 compose_message_2
  respond_to_message_1_context message_1 c response =
      elim (Option-cases (respond_to_message_1 message_1 (some c) response).context) [
        | inl n ↦ absurd (ground arith)
        | inr (c', e) ↦ (c', e)
      ]

  pub respond_to_message_3_context :
      (c : C) (message_3 : ReadonlyBuffer) (response : WritableBuffer)
      → (c' : C) × ((respond_to_message_3 (some c) message_3 response).context ≡ some c')
  unfolding respond_to_message_3 process_message_3
  respond_to_message_3_context c message_3 response =
      elim (Option-cases (respond_to_message_3 (some c) message_3 response).context) [
        | inl n ↦ absurd (ground arith)
        | inr (c', e) ↦ (c', e)
      ]

  -- A Message 3 is accepted only if it has content and libedhoc accepted it; then no payload is sent.
  pub respond_to_message_3_ok :
      (c : C) (message_3 : ReadonlyBuffer) (response : WritableBuffer)
      → (respond_to_message_3 (some c) message_3 response).status ≡ ok
      → (readonly_buffer_has_content message_3 ≡ true)
        × ((lib.message_3_process c message_3).0 ≡ true)
        × ((respond_to_message_3 (some c) message_3 response).response.length ≡ 0)
  unfolding respond_to_message_3 process_message_3
  respond_to_message_3_ok c message_3 response h = ground arith

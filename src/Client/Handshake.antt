-- ===== src/Client/Handshake.antt =====
-- src/edhoc/client/handshake: message_1/cli_m1_compose.c, message_2/cli_m2_process.c and
-- cli_m2_responder.c, message_3/cli_m3_compose.c and message_4/cli_m4_process.c, with their headers.
use tfg_edhoc.Base.{
  ◌<◌, ◌≡◌, ◌≢◌, ◌⊎◌, Bool, true, not, Option, none, some, [], arith, if◌then◌else◌, or_else,
}
use tfg_edhoc.Common.Buffers.{
  ReadonlyBuffer, WritableBuffer, ConversionStatus, empty_buffer, readonly_buffer_has_content,
  writable_buffer_is_writable, writable_as_readonly,
}
use tfg_edhoc.Library.{Libedhoc, Composed}

pub data ComposeStatus : Type 0 where
  ok err_invalid_compose_buffer err_null_context err_edhoc_compose err_empty_compose : ComposeStatus

pub record ComposeResult (C : Type 0) : Type 0 where
  pub status : ComposeStatus
  pub buffer : ReadonlyBuffer
  pub context : Option C

pub data ProcessStatus : Type 0 where
  ok err_null_context err_empty_message err_edhoc_process_failed : ProcessStatus

pub record ProcessResult (C : Type 0) : Type 0 where
  pub status : ProcessStatus
  pub context : Option C

pub data Message2InitiatorStatus : Type 0 where
  ok err_invalid_response_buffer err_message_2_process err_message_3_compose :
      Message2InitiatorStatus

pub record Message2ResponderResult (C : Type 0) : Type 0 where
  pub status : Message2InitiatorStatus
  pub buffer : ReadonlyBuffer
  pub context : Option C

abbrev composed : {C : Type 0} → ComposeStatus → ReadonlyBuffer → Option C → ComposeResult C
composed s b c = record { status = s; buffer = b; context = c }

abbrev processed : {C : Type 0} → ProcessStatus → Option C → ProcessResult C
processed s c = record { status = s; context = c }

-- From the call of libedhoc on.
abbrev finish_compose : {C : Type 0} → Composed C → ComposeResult C
finish_compose o =
    if not o.success
    then composed err_edhoc_compose empty_buffer (some o.context)
    else elim (writable_as_readonly (some o.bytes) o.written).status [
      | ConversionStatus.ok ↦
          composed ok (writable_as_readonly (some o.bytes) o.written).buffer (some o.context)
      | ConversionStatus.err_empty_buffer ↦ composed err_empty_compose empty_buffer (some o.context)
    ]

-- `cli_edhoc_process_message_2` and `cli_edhoc_process_message_4` differ in the call of libedhoc only.
abbrev process_with :
    {C : Type 0} → (C → ReadonlyBuffer → Bool × C) → Option C → ReadonlyBuffer → ProcessResult C
process_with call none message = processed err_null_context none
process_with call (some c) message =
    let (accepted, c') = call c message in
    if not (readonly_buffer_has_content message)
    then processed err_empty_message (some c)
    else if accepted
    then processed ok (some c')
    else processed err_edhoc_process_failed (some c')

abbrev pub responder_result :
    {C : Type 0} → Message2InitiatorStatus → ReadonlyBuffer → Option C → Message2ResponderResult C
responder_result s b c = record { status = s; buffer = b; context = c }

module _ {C K : Type 0} (lib : Libedhoc C K) where
  -- The context is handed on to libedhoc as it is; it is never NULL here.
  unfoldable pub compose_message_1 : C → WritableBuffer → ComposeResult C
  compose_message_1 context compose_buffer =
      if not (writable_buffer_is_writable compose_buffer)
      then composed err_invalid_compose_buffer empty_buffer (some context)
      else finish_compose
          (lib.message_1_compose context (or_else compose_buffer.bytes []) compose_buffer.capacity)

  unfoldable pub process_message_2 : Option C → ReadonlyBuffer → ProcessResult C
  process_message_2 context message_2 = process_with lib.message_2_process context message_2

  unfoldable pub compose_message_3 : Option C → WritableBuffer → ComposeResult C
  compose_message_3 context compose_buffer =
      if not (writable_buffer_is_writable compose_buffer)
      then composed err_invalid_compose_buffer empty_buffer context
      else elim context [
        | none ↦ composed err_null_context empty_buffer none
        | some c ↦
            finish_compose
              (lib.message_3_compose c (or_else compose_buffer.bytes []) compose_buffer.capacity)
      ]

  unfoldable pub process_message_4 : Option C → ReadonlyBuffer → ProcessResult C
  process_message_4 context message_4 = process_with lib.message_4_process context message_4

  unfoldable pub respond_to_message_2 :
      Option C → ReadonlyBuffer → WritableBuffer → Message2ResponderResult C
  unfolding process_message_2 compose_message_3
  respond_to_message_2 context message_2 response_buffer =
      let process_result = process_message_2 context message_2 in
      let compose_result = compose_message_3 process_result.context response_buffer in
      if not (writable_buffer_is_writable response_buffer)
      then responder_result err_invalid_response_buffer empty_buffer context
      else elim process_result.status [
        | ProcessStatus.ok ↦ elim compose_result.status [
          | ComposeStatus.ok ↦ responder_result ok compose_result.buffer compose_result.context
          | _ ↦ responder_result err_message_3_compose empty_buffer compose_result.context
        ]
        | _ ↦ responder_result err_message_2_process empty_buffer process_result.context
      ]

  -- libedhoc accepted a Message 2 with content and composed a Message 3, which is handed out.
  abbrev pub HandsOutMessage3 :
      C → ReadonlyBuffer → WritableBuffer → Message2ResponderResult C → Type 0
  HandsOutMessage3 c message_2 response_buffer r =
      let (accepted, c1) = lib.message_2_process c message_2 in
      let o =
        lib.message_3_compose c1 (or_else response_buffer.bytes []) response_buffer.capacity in
      (readonly_buffer_has_content message_2 ≡ true)
      × (accepted ≡ true)
      × (o.success ≡ true)
      × (0 < o.written)
      × (r.status ≡ ok)
      × (r.buffer ≡ record { bytes = some o.bytes; length = o.written })
      × (r.context ≡ some o.context)

  -- Given a writable buffer, either libedhoc accepted a Message 2 with content and composed bytes, and
  -- the client hands out exactly these as Message 3; or it reports an error and hands out nothing.
  pub respond_to_message_2_ok :
      (c : C) (message_2 : ReadonlyBuffer) (response_buffer : WritableBuffer)
      → writable_buffer_is_writable response_buffer ≡ true
      → HandsOutMessage3 c message_2 response_buffer
          (respond_to_message_2 (some c) message_2 response_buffer)
        ⊎ (((respond_to_message_2 (some c) message_2 response_buffer).status ≢ ok)
            × ((respond_to_message_2 (some c) message_2 response_buffer).buffer ≡ empty_buffer))
  unfolding respond_to_message_2 process_message_2 compose_message_3
  respond_to_message_2_ok c message_2 response_buffer w = ground arith

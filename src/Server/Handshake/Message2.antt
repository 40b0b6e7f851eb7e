-- ===== src/Server/Handshake/Message2.antt =====
-- src/edhoc/server/handshake/message_2/srv_m2_compose.c and its headers.
use tfg_edhoc.Base.{not, Option, none, some, [], if◌then◌else◌, or_else}
use tfg_edhoc.Library.{Libedhoc}
use tfg_edhoc.Common.Buffers.{
  ReadonlyBuffer, WritableBuffer, empty_buffer, writable_buffer_is_writable, writable_as_readonly,
  ConversionStatus,
}

pub data ComposeStatus : Type 0 where
  ok err_invalid_compose_buffer err_null_context err_compose err_empty_compose
        err_buffer_conversion :
      ComposeStatus

pub record ComposeResult (C : Type 0) : Type 0 where
  pub status : ComposeStatus
  pub buffer : ReadonlyBuffer
  pub context : Option C

abbrev pub result : {C : Type 0} → ComposeStatus → ReadonlyBuffer → Option C → ComposeResult C
result s b c = record { status = s; buffer = b; context = c }

module _ {C K : Type 0} (lib : Libedhoc C K) where
  unfoldable pub compose_message_2 : Option C → WritableBuffer → ComposeResult C
  compose_message_2 context compose_buffer =
      if not (writable_buffer_is_writable compose_buffer)
      then result err_invalid_compose_buffer empty_buffer context
      else elim context [
        | none ↦ result err_null_context empty_buffer none
        | some c ↦
            let o =
              lib.message_2_compose c (or_else compose_buffer.bytes []) compose_buffer.capacity in
            let conversion = writable_as_readonly (some o.bytes) o.written in
            if not o.success
            then result err_compose empty_buffer (some o.context)
            else elim conversion.status [
              | ConversionStatus.ok ↦ result ok conversion.buffer (some o.context)
              | ConversionStatus.err_empty_buffer ↦
                  result err_empty_compose empty_buffer (some o.context)
            ]
      ]

-- ===== src/Server/Handshake/Message3.antt =====
-- src/edhoc/server/handshake/message_3/srv_m3_process.c and its headers.
use tfg_edhoc.Base.{not, Option, none, some, if◌then◌else◌}
use tfg_edhoc.Library.{Libedhoc}
use tfg_edhoc.Common.Buffers.{ReadonlyBuffer, readonly_buffer_has_content}

pub data ProcessStatus : Type 0 where
  ok err_null_edhoc_context err_empty_parsed_message_3 err_edhoc_message_3_process_failed :
      ProcessStatus

pub record ProcessResult (C : Type 0) : Type 0 where
  pub status : ProcessStatus
  pub context : Option C

module _ {C K : Type 0} (lib : Libedhoc C K) where
  unfoldable pub process_message_3 : Option C → ReadonlyBuffer → ProcessResult C
  process_message_3 none message_3 = record { status = err_null_edhoc_context; context = none }
  process_message_3 (some c) message_3 =
      let (processed, c') = lib.message_3_process c message_3 in
      if not (readonly_buffer_has_content message_3)
      then record { status = err_empty_parsed_message_3; context = some c }
      else if processed
      then record { status = ok; context = some c' }
      else record { status = err_edhoc_message_3_process_failed; context = some c' }

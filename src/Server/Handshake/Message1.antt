-- ===== src/Server/Handshake/Message1.antt =====
-- src/edhoc/server/handshake/message_1/srv_m1_process.c and its headers.
use tfg_edhoc.Base.{Bool, true, false, not, Option, none, some, if◌then◌else◌, or_else}
use tfg_edhoc.Library.{
  Libedhoc, ErrorCode, unspecified_error, wrong_selected_cipher_suite, other_error,
}
use tfg_edhoc.Common.Buffers.{
  ReadonlyBuffer, WritableBuffer, empty_buffer, readonly_buffer_has_content,
  writable_buffer_is_writable,
}
use tfg_edhoc.Server.AddError.{add_cipher_suite_mismatch_error}

pub data ProcessStatus : Type 0 where
  ok err_invalid_error_buffer err_empty_request_buffer err_null_context err_edhoc_process :
      ProcessStatus

pub record ProcessResult (C : Type 0) : Type 0 where
  pub status : ProcessStatus
  pub error_buffer : ReadonlyBuffer
  pub context : Option C

abbrev is_wrong_suite : ErrorCode → Bool
is_wrong_suite unspecified_error = false
is_wrong_suite wrong_selected_cipher_suite = true
is_wrong_suite (other_error n) = false

abbrev pub result : {C : Type 0} → ProcessStatus → ReadonlyBuffer → Option C → ProcessResult C
result s b c = record { status = s; error_buffer = b; context = c }

module _ {C K : Type 0} (lib : Libedhoc C K) where
  unfoldable pub error_code_is_suite_mismatch : C → Bool
  error_code_is_suite_mismatch context =
      is_wrong_suite (or_else (lib.error_get_code context) unspecified_error)

  -- After libedhoc has refused the message.
  abbrev process_failed : C → WritableBuffer → ProcessResult C
  process_failed context error_buffer =
      result err_edhoc_process
        (if error_code_is_suite_mismatch context
          then add_cipher_suite_mismatch_error lib context error_buffer
          else empty_buffer)
        (some context)

  unfoldable pub process_message_1 : ReadonlyBuffer → Option C → WritableBuffer → ProcessResult C
  process_message_1 request context error_buffer =
      if not (readonly_buffer_has_content request)
      then result err_empty_request_buffer empty_buffer context
      else if not (writable_buffer_is_writable error_buffer)
      then result err_invalid_error_buffer empty_buffer context
      else elim context [
        | none ↦ result err_null_context empty_buffer none
        | some c ↦
            let (processed, c') = lib.message_1_process c request in
            if processed then result ok empty_buffer (some c') else process_failed c' error_buffer
      ]

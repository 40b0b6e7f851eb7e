-- ===== src/Server/AddError.antt =====
-- src/edhoc/common/add_error: the error messages that the server sends back.
-- A `const char*` is an option of a text; its length is that of `strlen`.
use tfg_edhoc.Base.{
  ℕ, Bool, true, false, not, ◌||◌, Option, none, some, List, [], ◌∷◌, ◌==◌, if◌then◌else◌, or_else,
  length,
}
use Prim.Native.Char.{code}
use Prim.Native.String.{String}
use tfg_edhoc.Library.{
  Libedhoc, ErrorCode, unspecified_error, ErrorContent, no_content, text_string, cipher_suites,
  ErrorInfo,
}
use tfg_edhoc.Common.Buffers.{
  ReadonlyBuffer, WritableBuffer, empty_buffer, writable_buffer_is_writable, writable_as_readonly,
  ConversionStatus,
}

-- The code points of an ASCII text.
abbrev pub codes : String → List ℕ
codes String.[] = []
codes (String.◌∷◌ c s) = code c ∷ codes s

pub data AddErrorStatus : Type 0 where
  ok err_invalid_response_buffer err_conversion err_compose : AddErrorStatus

pub record AddErrorResult : Type 0 where
  pub status : AddErrorStatus
  pub buffer : ReadonlyBuffer

abbrev internal_error : AddErrorStatus → AddErrorResult
internal_error s = record { status = s; buffer = empty_buffer }

unfoldable pub set_error_info : String → ErrorInfo
set_error_info message = record {
  content = text_string (codes message);
  total_entries = length (codes message);
  written_entries = length (codes message);
}

abbrev content_is_null : ErrorContent → Bool
content_is_null no_content = true
content_is_null (text_string t) = false
content_is_null (cipher_suites s) = false

unfoldable pub error_info_is_invalid : Option ErrorInfo → Bool
error_info_is_invalid none = true
error_info_is_invalid (some info) =
    info.written_entries == 0 || (content_is_null info.content || info.total_entries == 0)

-- Both functions end so: compose into the buffer, and hand out what was written.
abbrev compose_into : Option (List ℕ × ℕ) → AddErrorResult
compose_into none = internal_error err_compose
compose_into (some (bytes, written)) = elim (writable_as_readonly (some bytes) written).status [
  | ConversionStatus.ok ↦ record {
    status = ok;
    buffer = (writable_as_readonly (some bytes) written).buffer;
  }
  | ConversionStatus.err_empty_buffer ↦ internal_error err_conversion
]

module _ {C K : Type 0} (lib : Libedhoc C K) where
  unfoldable pub add_internal_error_result : Option String → WritableBuffer → AddErrorResult
  unfolding set_error_info
  add_internal_error_result description response =
      if not (writable_buffer_is_writable response)
      then internal_error err_invalid_response_buffer
      else compose_into (
          lib.message_error_compose (or_else response.bytes []) response.capacity unspecified_error
            (set_error_info
              (or_else description "Fatal Internal Failure: error description was NULL")))

  unfoldable pub add_internal_error_view : Option String → WritableBuffer → ReadonlyBuffer
  unfolding add_internal_error_result
  add_internal_error_view description response =
      (add_internal_error_result description response).buffer

  -- The code that libedhoc reports for the context, or the fallback.
  abbrev error_code_of : Option C → ErrorCode
  error_code_of none = unspecified_error
  error_code_of (some context) = or_else (lib.error_get_code context) unspecified_error

  unfoldable pub add_protocol_error_result :
      Option C → Option ErrorInfo → WritableBuffer → AddErrorResult
  unfolding set_error_info error_info_is_invalid
  add_protocol_error_result context info response =
      if not (writable_buffer_is_writable response)
      then internal_error err_invalid_response_buffer
      else compose_into (
          lib.message_error_compose (or_else response.bytes []) response.capacity
            (error_code_of context)
            (if error_info_is_invalid info
              then set_error_info "Fatal Internal Error: invalid error info provided"
              else or_else info (set_error_info "")))

  unfoldable pub add_protocol_error_view :
      Option C → Option ErrorInfo → WritableBuffer → ReadonlyBuffer
  unfolding add_protocol_error_result
  add_protocol_error_view context info response =
      (add_protocol_error_result context info response).buffer

  unfoldable pub add_protocol_error_with_description_result :
      Option C → Option String → WritableBuffer → AddErrorResult
  unfolding add_protocol_error_result
  add_protocol_error_with_description_result context description response =
      add_protocol_error_result context
        (some
          (set_error_info (or_else description "Fatal Internal Error: error description was NULL")))
        response

  unfoldable pub add_protocol_error_with_description_view :
      Option C → Option String → WritableBuffer → ReadonlyBuffer
  unfolding add_protocol_error_with_description_result
  add_protocol_error_with_description_view context description response =
      (add_protocol_error_with_description_result context description response).buffer

  -- Eight places for the server's own suites.
  unfoldable pub add_cipher_suite_mismatch_error : C → WritableBuffer → ReadonlyBuffer
  unfolding add_protocol_error_view add_protocol_error_with_description_view
  add_cipher_suite_mismatch_error context response = elim (lib.error_get_cipher_suites context 8) [
    | none ↦
        add_protocol_error_with_description_view (some context)
          (some
            "Message 1 Process error: Fatal: wrong cipher suite error but failed to get cipher suites")
          response
    | some own ↦
        add_protocol_error_view (some context)
          (some (record {
            content = cipher_suites own;
            total_entries = 8;
            written_entries = length own;
          }))
          response
  ]

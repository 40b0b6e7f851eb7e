-- ===== src/Coap/Request.antt =====
-- include/coap/common/com_coap_parse_edhoc_request.h, src/coap/common/com_coap_parse_edhoc_request.c
-- and src/coap/common/internal/com_parse_edhoc_request_builders.c.
use tfg_edhoc.Base.{ℕ, ◌%◌, not, Option, none, some, ◌==◌, if◌then◌else◌}
use tfg_edhoc.Library.{Libcoap, PduCode, changed, bad_request, internal_error}
use tfg_edhoc.Common.Buffers.{
  ReadonlyBuffer, WritableBuffer, empty_buffer, writable_buffer_is_writable,
}
use tfg_edhoc.Coap.Data.{GetDataStatus, get_data}

pub data ParseStatus : Type 0 where
  ok err_pdu err_data_buffer err_missing_format err_unsupported_format err_no_payload : ParseStatus

pub record ParseResult : Type 0 where
  pub status : ParseStatus
  pub parsed_request : ReadonlyBuffer

unfoldable pub parse_edhoc_failure : ParseStatus → ParseResult
parse_edhoc_failure s = record { status = s; parsed_request = empty_buffer }

unfoldable pub parse_edhoc_ok : ReadonlyBuffer → ParseResult
parse_edhoc_ok data_read = record { status = ok; parsed_request = data_read }

module _ {P O : Type 0} (coap : Libcoap P O) where
  -- The decoded option is kept in a `uint16_t`.
  unfoldable pub parse_edhoc_request : Option P → ℕ → WritableBuffer → ParseResult
  unfolding parse_edhoc_failure parse_edhoc_ok
  parse_edhoc_request none expected buffer = parse_edhoc_failure err_pdu
  parse_edhoc_request (some pdu) expected buffer =
      if not (writable_buffer_is_writable buffer)
      then parse_edhoc_failure err_data_buffer
      else elim (coap.check_content_format pdu) [
        | none ↦ parse_edhoc_failure err_missing_format
        | some value ↦
            if not (coap.decode_var_bytes value % 65536 == expected)
            then parse_edhoc_failure err_unsupported_format
            else elim (get_data coap (some pdu) buffer).status [
              | GetDataStatus.ok ↦ parse_edhoc_ok (get_data coap (some pdu) buffer).buffer
              | _ ↦ parse_edhoc_failure err_no_payload
            ]
      ]

unfoldable pub map_parse_result_to_pdu_code : ParseStatus → PduCode
map_parse_result_to_pdu_code ok = changed
map_parse_result_to_pdu_code err_missing_format = bad_request
map_parse_result_to_pdu_code err_unsupported_format = bad_request
map_parse_result_to_pdu_code err_no_payload = bad_request
map_parse_result_to_pdu_code err_pdu = internal_error
map_parse_result_to_pdu_code err_data_buffer = internal_error

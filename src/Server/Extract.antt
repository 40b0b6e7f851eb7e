-- ===== src/Server/Extract.antt =====
-- src/coap/server/extract_edhoc_message: the split of a request into its prefix and the message.
use tfg_edhoc.Base.{◌≡◌, Bool, true, false, not, Option, none, some, arith, if◌then◌else◌}
use tfg_edhoc.Library.{Libedhoc, PduCode, changed, bad_request, internal_error}
use tfg_edhoc.Common.Buffers.{
  ReadonlyBuffer, WritableBuffer, empty_buffer, readonly_buffer_has_content,
  writable_buffer_is_writable,
}
use tfg_edhoc.Server.AddError.{add_internal_error_view}

pub data ExtractMessage1Status : Type 0 where
  ok err_invalid_error_buffer err_empty_request_buffer err_unsupported_forward_flow
        err_prefix_extraction :
      ExtractMessage1Status

pub record ExtractMessage1Result : Type 0 where
  pub status : ExtractMessage1Status
  pub buffer : ReadonlyBuffer

unfoldable pub parse_message_1_ok : ReadonlyBuffer → ExtractMessage1Result
parse_message_1_ok b = record { status = ok; buffer = b }

unfoldable pub parse_message_1_failure :
    ExtractMessage1Status → ReadonlyBuffer → ExtractMessage1Result
parse_message_1_failure s b = record { status = s; buffer = b }

unfoldable pub parse_message_1_invalid_error_buffer : ExtractMessage1Result
parse_message_1_invalid_error_buffer = record {
  status = err_invalid_error_buffer;
  buffer = empty_buffer;
}

unfoldable pub map_extract_message_1_to_pdu_code : ExtractMessage1Status → PduCode
map_extract_message_1_to_pdu_code ok = changed
map_extract_message_1_to_pdu_code err_empty_request_buffer = bad_request
map_extract_message_1_to_pdu_code err_unsupported_forward_flow = bad_request
map_extract_message_1_to_pdu_code err_prefix_extraction = bad_request
map_extract_message_1_to_pdu_code err_invalid_error_buffer = internal_error

pub data ExtractCidStatus : Type 0 where
  ok err_empty_buffer err_extract : ExtractCidStatus

pub record ExtractCidResult (K : Type 0) : Type 0 where
  pub status : ExtractCidStatus
  pub cid : K
  pub message_payload : ReadonlyBuffer

module _ {C K : Type 0} (lib : Libedhoc C K) where
  unfoldable pub extract_message_1 : ReadonlyBuffer → WritableBuffer → ExtractMessage1Result
  unfolding parse_message_1_ok parse_message_1_failure parse_message_1_invalid_error_buffer
  extract_message_1 request error_response =
      if not (writable_buffer_is_writable error_response)
      then parse_message_1_invalid_error_buffer
      else if not (readonly_buffer_has_content request)
      then parse_message_1_failure err_empty_request_buffer (
          add_internal_error_view lib (some "Message 1 Extract error: Empty request buffer")
            error_response)
      else elim (lib.extract_flow_info request) [
        | none ↦ parse_message_1_failure err_prefix_extraction (
            add_internal_error_view lib (some "Message 1 Extract error: Prefix extraction failed")
              error_response)
        | some (is_forward_flow, message) ↦
            if not is_forward_flow
            then parse_message_1_failure err_unsupported_forward_flow (
                add_internal_error_view lib
                  (some "Message 1 Extract error: Unsupported forward flow") error_response)
            else parse_message_1_ok message
      ]

  unfoldable pub is_message_1 : ReadonlyBuffer → Bool
  is_message_1 request =
      if not (readonly_buffer_has_content request)
      then false
      else elim (lib.extract_flow_info request) [
        | none ↦ false
        | some (is_forward_flow, message) ↦ is_forward_flow
      ]

  unfoldable pub extract_connection_id_ok : K → ReadonlyBuffer → ExtractCidResult K
  extract_connection_id_ok cid payload = record {
    status = ok;
    cid = cid;
    message_payload = payload;
  }

  unfoldable pub extract_connection_id_failure : ExtractCidStatus → ExtractCidResult K
  extract_connection_id_failure s = record {
    status = s;
    cid = lib.zeroed_cid;
    message_payload = empty_buffer;
  }

  unfoldable pub extract_connection_id : ReadonlyBuffer → ExtractCidResult K
  unfolding extract_connection_id_ok extract_connection_id_failure
  extract_connection_id request =
      if not (readonly_buffer_has_content request)
      then extract_connection_id_failure err_empty_buffer
      else elim (lib.extract_connection_id request) [
        | none ↦ extract_connection_id_failure err_extract
        | some (cid, payload) ↦ extract_connection_id_ok cid payload
      ]

  unfoldable pub connection_id_is_expected : K → Option C → Bool
  connection_id_is_expected extracted none = false
  connection_id_is_expected extracted (some context) =
      lib.connection_id_equal extracted (lib.private_cid context)

  abbrev pub extracted : ExtractMessage1Status → Bool
  extracted ok = true
  extracted _ = false

  -- The router takes a request for a Message 1 exactly if the extraction, given a writable error
  -- buffer, accepts it: the two read the prefix alike.
  pub is_message_1-extract_message_1 :
      (request : ReadonlyBuffer) (error_response : WritableBuffer)
      → writable_buffer_is_writable error_response ≡ true
      → is_message_1 request ≡ extracted (extract_message_1 request error_response).status
  unfolding is_message_1 extract_message_1
  is_message_1-extract_message_1 request error_response w = ground arith

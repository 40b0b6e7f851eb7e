-- ===== src/Library.antt =====
-- The libraries that the program calls and this repository does not hold: libedhoc and libcoap.
-- Every operation is a field of a record, over a type `C` of EDHOC contexts and a type `K` of
-- connection identifiers, and every theorem is about any such record. A call that returns an int
-- returns here whether it was EDHOC_SUCCESS; what it writes through pointers is part of its result.
use tfg_edhoc.Base.{ℕ, Bool, Option, List}
use tfg_edhoc.Suites.Int.{ℤ}
use tfg_edhoc.Suites.{CipherSuite, CipherSuiteDetails}
use tfg_edhoc.Common.Buffers.{ReadonlyBuffer}

-- `enum edhoc_error_code`: the two that the program names, and the others.
pub data ErrorCode : Type 0 where
  unspecified_error wrong_selected_cipher_suite : ErrorCode
  other_error : ℕ → ErrorCode

-- The union in `struct edhoc_error_info`: NULL, a text, or an array of suites.
pub data ErrorContent : Type 0 where
  no_content : ErrorContent
  text_string : List ℕ → ErrorContent
  cipher_suites : List ℤ → ErrorContent

pub record ErrorInfo : Type 0 where
  pub content : ErrorContent
  pub total_entries : ℕ
  pub written_entries : ℕ

-- What a composing call leaves: its success, the context, the buffer's bytes, the length written.
pub record Composed (C : Type 0) : Type 0 where
  pub success : Bool
  pub context : C
  pub bytes : List ℕ
  pub written : ℕ

-- `struct edhoc_prepended_fields`; `offset` is `edhoc_message_ptr - buffer`.
pub record PrependedFields : Type 0 where
  pub buffer : List ℕ
  pub buffer_size : ℕ
  pub offset : ℕ
  pub edhoc_message_size : ℕ

-- What `edhoc_export_oscore_session` writes.
-- Arrays by their bytes, and how many bytes of the identifiers were written.
pub record OscoreSecrets (C : Type 0) : Type 0 where
  pub context : C
  pub master_secret : ℕ → ℕ
  pub master_salt : ℕ → ℕ
  pub sender_id : ℕ → ℕ
  pub sender_id_len : ℕ
  pub recipient_id : ℕ → ℕ
  pub recipient_id_len : ℕ

pub record Libedhoc (C K : Type 0) : Type 0 where
  pub zeroed_context : C
  pub context_init : C → Bool × C
  pub set_methods : List ℕ → C → Bool × C
  pub set_cipher_suites : List (Option CipherSuite) → C → Bool × C
  pub set_connection_id : K → C → Bool × C
  -- The keys that the function with this number returns, and so for the crypto functions.
  pub bind_keys : ℕ → C → Bool × C
  pub set_user_context : CipherSuiteDetails → C → Bool × C
  pub bind_crypto : ℕ → C → Bool × C
  pub bind_credentials : ℕ → C → Bool × C
  pub context_deinit : C → Bool × C
  pub private_cid : C → K
  pub private_peer_cid : C → K
  pub selected_suite_value : C → ℤ
  -- The struct literal with EDHOC_CID_TYPE_ONE_BYTE_INTEGER, the value and `bstr_length` 0.
  pub one_byte_integer_cid : ℤ → K
  pub zeroed_cid : K
  pub connection_id_equal : K → K → Bool
  pub message_1_compose : C → List ℕ → ℕ → Composed C
  pub message_1_process : C → ReadonlyBuffer → Bool × C
  pub message_2_compose : C → List ℕ → ℕ → Composed C
  pub message_2_process : C → ReadonlyBuffer → Bool × C
  pub message_3_compose : C → List ℕ → ℕ → Composed C
  pub message_3_process : C → ReadonlyBuffer → Bool × C
  pub message_4_compose : C → List ℕ → ℕ → Composed C
  pub message_4_process : C → ReadonlyBuffer → Bool × C
  pub error_get_code : C → Option ErrorCode
  -- The own suites, at most the capacity given.
  pub error_get_cipher_suites : C → ℕ → Option (List ℤ)
  -- The bytes of the buffer afterwards and the length written.
  pub message_error_compose : List ℕ → ℕ → ErrorCode → ErrorInfo → Option (List ℕ × ℕ)
  pub message_error_process : ReadonlyBuffer → ℕ → Option (ErrorCode × ErrorInfo)
  -- Whether the flow is the forward one, and the message behind the prefix.
  pub extract_flow_info : ReadonlyBuffer → Option (Bool × ReadonlyBuffer)
  pub extract_connection_id : ReadonlyBuffer → Option (K × ReadonlyBuffer)
  pub prepend_flow : PrependedFields → Option PrependedFields
  pub prepend_connection_id : K → PrependedFields → Option PrependedFields
  pub prepend_recalculate_size : PrependedFields → Option PrependedFields
  pub export_oscore_session : C → ℕ → ℕ → ℕ → Option (OscoreSecrets C)

-- `coap_pdu_code_t`: the codes that the program names, and the others.
pub data PduCode : Type 0 where
  changed content bad_request internal_error empty_code : PduCode
  other_code : ℕ → PduCode

-- What `coap_get_data_large` writes.
pub record LargeData : Type 0 where
  pub length : ℕ
  pub data_bytes : Option (List ℕ)
  pub offset : ℕ
  pub total_length : ℕ

-- libcoap's PDUs, over a type `P` of PDUs and a type `O` of option lists.
pub record Libcoap (P O : Type 0) : Type 0 where
  pub get_code : P → PduCode
  pub set_code : PduCode → P → P
  -- `none` where the call returns 0.
  pub get_data_large : P → Option LargeData
  -- The value of the option COAP_OPTION_CONTENT_FORMAT.
  pub check_content_format : P → Option (List ℕ)
  pub decode_var_bytes : List ℕ → ℕ
  pub add_data : List ℕ → ℕ → P → Bool × P
  -- The bytes of the value in a buffer of the capacity; none of them if it fails.
  pub encode_var_safe : ℕ → ℕ → List ℕ
  pub new_optlist : List ℕ → Option O
  -- The list that holds the option, or `none` if it cannot be inserted.
  pub insert_optlist : O → Option O
  pub add_optlist_pdu : O → P → Bool × P

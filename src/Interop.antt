-- ===== src/Interop.antt =====
-- A server's refusal of a cipher suite and the client's answer to it: the error message of
-- src/edhoc/common/add_error/com_edhoc_add_cipher_suite_mismatch_error.c, taken by
-- src/edhoc/client/handshake/cli_negotiate_cipher_suites.c.
use tfg_edhoc.Base.{ℕ, ◌≤◌, ◌<◌, ◌≡◌, true, some, List, [], arith, or_else, length, All}
use tfg_edhoc.Library.{Libedhoc, ErrorInfo, wrong_selected_cipher_suite, cipher_suites}
use tfg_edhoc.Common.Buffers.{WritableBuffer, writable_buffer_is_writable}
use tfg_edhoc.Server.AddError.{
  add_cipher_suite_mismatch_error, add_protocol_error_view, error_info_is_invalid,
  add_protocol_error_result,
}
use tfg_edhoc.Suites.Int.{ℤ}
use tfg_edhoc.Suites.{CipherSuiteList, cipher_suites_are_valid}
use tfg_edhoc.Suites.Negotiate.{negotiate_suites, error_suggests_renegotiation, error_size}
use tfg_edhoc.Suites.Negotiate.Laws.{Reports, Outcome, negotiate_suites-Outcome}
use tfg_edhoc.Suites.Setup.Arrays.{HasMetadata}
use tfg_edhoc.Suites.Parameters.{entries}

-- What the server reports: its suites, in eight places.
abbrev pub reported : List ℤ → ErrorInfo
reported theirs = record {
  content = cipher_suites theirs;
  total_entries = 8;
  written_entries = length theirs;
}

-- libedhoc decodes an error about these suites that it has composed, and gives them back in order.
pub record Decodes {C K : Type 0} (lib : Libedhoc C K) (theirs : List ℤ) : Type 0 where
  pub decoded :
      (bytes out : List ℕ) (capacity written : ℕ)
      → lib.message_error_compose bytes capacity wrong_selected_cipher_suite (reported theirs)
        ≡ some (out, written)
      → (0 < written)
        × ((info : ErrorInfo) × (lib.message_error_process
                (record { bytes = some out; length = written })
                error_size
              ≡ some (wrong_selected_cipher_suite, info))
            × Reports info theirs)

module _ {C K : Type 0} (lib : Libedhoc C K) where
  -- The bytes that libedhoc composed are what the server sends.
  mismatch_error_lem :
      (context : C) (theirs : List ℤ) (response : WritableBuffer) (out : List ℕ) (written : ℕ)
      → lib.error_get_cipher_suites context 8 ≡ some theirs
      → lib.error_get_code context ≡ some wrong_selected_cipher_suite
      → 0 < length theirs
      → writable_buffer_is_writable response ≡ true
      → lib.message_error_compose
          (or_else response.bytes [])
          response.capacity
          wrong_selected_cipher_suite
          (reported theirs)
        ≡ some (out, written)
      → 0 < written
      → add_cipher_suite_mismatch_error lib context response
        ≡ record { bytes = some out; length = written }
  unfolding add_cipher_suite_mismatch_error add_protocol_error_view add_protocol_error_result
      error_info_is_invalid
  mismatch_error_lem context theirs response out written got code some_suite writable composed h =
      ground (arith, got, code, some_suite, writable, composed, h)

  -- A server that has refused the suite of a Message 1, and whose context reports one suite or more,
  -- sends an error from which the client learns that it can negotiate, and the negotiation takes the
  -- first of the client's suites that this server supports, or finds that there is none. The server's
  -- buffer is writable, libedhoc composes the error and decodes what it composed, and the client has at
  -- most ten valid suites with their metadata.
  pub mismatch_error-negotiate_suites :
      (context : C) (theirs : List ℤ) (response : WritableBuffer) (out : List ℕ) (written : ℕ)
      (own : CipherSuiteList)
      → Decodes lib theirs
      → lib.error_get_cipher_suites context 8 ≡ some theirs
      → lib.error_get_code context ≡ some wrong_selected_cipher_suite
      → 0 < length theirs
      → writable_buffer_is_writable response ≡ true
      → lib.message_error_compose
          (or_else response.bytes [])
          response.capacity
          wrong_selected_cipher_suite
          (reported theirs)
        ≡ some (out, written)
      → cipher_suites_are_valid own ≡ true
      → length (entries own) ≤ 10
      → All HasMetadata (entries own)
      → (error_suggests_renegotiation lib (add_cipher_suite_mismatch_error lib context response)
          ≡ some true)
        × Outcome theirs
            (entries own)
            (negotiate_suites lib own (add_cipher_suite_mismatch_error lib context response))
  unfolding error_suggests_renegotiation
  mismatch_error-negotiate_suites context theirs response out written own codec got code some_suite
        writable composed valid few have =
      let (h, (info, processed, reports)) =
        codec.decoded (or_else response.bytes []) out response.capacity written composed in
      rw
        (mismatch_error_lem context theirs response out written got code some_suite writable
          composed h)
        (
          ground (arith, processed),
          negotiate_suites-Outcome lib own (record { bytes = some out; length = written })
              wrong_selected_cipher_suite info theirs (ground (arith, h)) valid few have processed
              reports,
        )

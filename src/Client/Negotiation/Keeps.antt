-- ===== src/Client/Negotiation/Keeps.antt =====
-- What the negotiation of src/core/app_client.c relies on, and the steps of it that are safe with that.
use tfg_edhoc.Base.{
  ℕ, ◌≤◌, ◌≡◌, ap, ◌∙◌, ◌≢◌, inl, inr, Bool, true, none, some, List, [], arith, or_else,
  Option-cases, length, All,
}
use tfg_edhoc.Common.Buffers.{ReadonlyBuffer, WritableBuffer, readonly_buffer_has_content}
use tfg_edhoc.Library.{Libedhoc, ErrorCode, ErrorInfo}
use tfg_edhoc.Suites.Int.{ℤ}
use tfg_edhoc.Suites.{CipherSuiteList, cipher_suites_are_valid}
use tfg_edhoc.Suites.Parameters.{EdhocParameters, IsValid, entries}
use tfg_edhoc.Suites.Setup.Arrays.{HasMetadata}
use tfg_edhoc.Suites.Negotiate.{
  NegotiationStatus, NegotiationResult, success, negotiate_suites, error_suggests_renegotiation,
  error_size, fits_array, process_error,
}
use tfg_edhoc.Suites.Negotiate.Laws.{Reports, negotiate_suites-Outcome}
use tfg_edhoc.Client.Handshake.{ComposeStatus, compose_message_1}
use tfg_edhoc.Client.Renegotiate.{reset_edhoc_context_with_new_suites_data}
use tfg_edhoc.Client.Renegotiate.Prefix.{Consistent}
use tfg_edhoc.Client.Renegotiate.Laws.{renegotiation-Usable}
use tfg_edhoc.Client.Send.{initial_fields}
use tfg_edhoc.Client.Send.Laws.{Fits, InBounds}

-- What libedhoc keeps to: it writes the bytes that it counts, leaves behind the flow prefix the room
-- that it says, and reports the peer's suites with an error about them; and what the peer keeps to: its
-- errors report at most 25 suites.
pub record Keeps {C K : Type 0} (lib : Libedhoc C K) : Type 0 where
  pub composes :
      (c : C) (bytes : List ℕ) (capacity : ℕ)
      → (lib.message_1_compose c bytes capacity).written
        ≤ length (lib.message_1_compose c bytes capacity).bytes
  pub flow_fits : Fits (lib.prepend_flow initial_fields)
  pub reports :
      (b : ReadonlyBuffer) (code : ErrorCode) (info : ErrorInfo)
      → error_suggests_renegotiation lib b ≡ some true
      → lib.message_error_process b error_size ≡ some (code, info)
      → (peer : List ℤ) × Reports info peer
  pub fits :
      (b : ReadonlyBuffer) (code : ErrorCode) (info : ErrorInfo)
      → lib.message_error_process b error_size ≡ some (code, info)
      → fits_array info.content ≡ true

module _ {C K : Type 0} (lib : Libedhoc C K) (keeps : Keeps lib) where
  -- Composed bytes are in bounds.
  pub compose_message_1-InBounds :
      (c : C) (payload : WritableBuffer)
      → (compose_message_1 lib c payload).status ≡ ComposeStatus.ok
      → InBounds (compose_message_1 lib c payload).buffer
  unfolding compose_message_1
  compose_message_1-InBounds c payload h =
      ground (arith, h, keeps.composes c (or_else payload.bytes []) payload.capacity)

  fault_needs :
      (own : CipherSuiteList) (b : ReadonlyBuffer)
      → negotiate_suites lib own b ≡ none
      → (readonly_buffer_has_content b ≡ true)
        × (length (entries own) ≤ 10)
        × (lib.message_error_process b error_size ≢ none)
  unfolding negotiate_suites process_error
  fault_needs own b n = (ground (arith, n), ground (arith, n), λ m. ground (arith, n, m))

  pub error_suggests_no_fault : (b : ReadonlyBuffer) → error_suggests_renegotiation lib b ≢ none
  unfolding error_suggests_renegotiation process_error
  error_suggests_no_fault b n = elim (Option-cases (lib.message_error_process b error_size)) [
    | inl m ↦ ground (arith, n, m)
    | inr ((code, info), m) ↦ ground (arith, n, m, keeps.fits b code info m)
  ]

  pub negotiate_suites_no_fault :
      (own : CipherSuiteList) (b : ReadonlyBuffer)
      → error_suggests_renegotiation lib b ≡ some true
      → cipher_suites_are_valid own ≡ true
      → All HasMetadata (entries own)
      → negotiate_suites lib own b ≢ none
  negotiate_suites_no_fault own b wrong valid have n =
      let (content, few, processed) = fault_needs own b n in
      elim (Option-cases (lib.message_error_process b error_size)) [
        | inl m ↦ processed m
        | inr ((code, info), m) ↦
            let (peer, reports) = keeps.reports b code info wrong m in
            elim (negotiate_suites-Outcome lib own b code info peer content valid few have m
              reports) [ inl (e, all) ↦ cc | inr (l, e, s) ↦ cc ]
      ]

  -- A negotiated list can be used.
  pub negotiated_reset :
      (psa : Bool) (c : C) (p : EdhocParameters) (b : ReadonlyBuffer) (n : NegotiationResult)
      → error_suggests_renegotiation lib b ≡ some true
      → IsValid p
      → Consistent (entries p.supported_cipher_suites)
      → negotiate_suites lib p.supported_cipher_suites b ≡ some n
      → n.status ≡ NegotiationStatus.ok
      → reset_edhoc_context_with_new_suites_data lib psa (some c) p n.renegotiation_suites ≢ none
  unfolding error_suggests_renegotiation process_error
  negotiated_reset psa c p b n wrong valid co negotiated ok =
      elim (Option-cases (lib.message_error_process b error_size)) [
        | inl m ↦ absurd (ground (arith, wrong, m))
        | inr ((code, info), m) ↦
            let (peer, reports) = keeps.reports b code info wrong m in
            let is_success : negotiate_suites lib p.supported_cipher_suites b
                ≡ some (success n.renegotiation_suites) =
              negotiated
              ∙ ap
                  (λ s. some (record { status = s; renegotiation_suites = n.renegotiation_suites }))
                  ok in
            (renegotiation-Usable lib p b code info peer n.renegotiation_suites psa c valid co m
              reports is_success).1
      ]

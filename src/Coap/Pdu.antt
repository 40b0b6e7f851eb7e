-- ===== src/Coap/Pdu.antt =====
-- src/coap/common/com_coap_pdu_helpers.c and the option list of src/coap/common/com_coap_helpers.c.
use tfg_edhoc.Base.{
  ℕ, Bool, true, false, Option, none, some, List, [], ◌∷◌, ◌==◌, if◌then◌else◌, ◌>>=◌,
}
use tfg_edhoc.Library.{
  Libcoap, PduCode, changed, content, bad_request, internal_error, empty_code, other_code,
}
use tfg_edhoc.Coap.{StatusCoap, ok, err}

module _ {P O : Type 0} (coap : Libcoap P O) where
  unfoldable pub create_coap_edhoc_optlist : ℕ → Option O
  create_coap_edhoc_optlist content_format = elim (coap.encode_var_safe 4 content_format) [
    | [] ↦ none
    | b ∷ bs ↦ coap.new_optlist (b ∷ bs) >>= coap.insert_optlist
  ]

  -- The PDU afterwards stands beside the status.
  unfoldable pub add_payload_to_pdu : Option P → Option (List ℕ) → ℕ → StatusCoap × Option P
  add_payload_to_pdu none payload payload_len = (err, none)
  add_payload_to_pdu (some response) none payload_len = (err, some response)
  add_payload_to_pdu (some response) (some payload) payload_len =
      if payload_len == 0
      then (err, some response)
      else let (added, response') = coap.add_data payload payload_len response in
        (if added then ok else err, some response')

  unfoldable pub add_edhoc_options_to_pdu : Option P → ℕ → StatusCoap × Option P
  unfolding create_coap_edhoc_optlist
  add_edhoc_options_to_pdu none content_format = (err, none)
  add_edhoc_options_to_pdu (some response) content_format =
      elim (create_coap_edhoc_optlist content_format) [
        | none ↦ (err, some response)
        | some optlist ↦
            let (added, response') = coap.add_optlist_pdu optlist response in
            (if added then ok else err, some response')
      ]

abbrev pub coap_response_indicates_success : PduCode → Bool
coap_response_indicates_success changed = true
coap_response_indicates_success content = false
coap_response_indicates_success bad_request = false
coap_response_indicates_success internal_error = false
coap_response_indicates_success empty_code = false
coap_response_indicates_success (other_code n) = false

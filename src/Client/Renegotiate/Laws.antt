-- ===== src/Client/Renegotiate/Laws.antt =====
-- The parameters that src/coap/client/cli_resources.c makes from a negotiated list of suites.
use tfg_edhoc.Base.{
  ◌≤◌, ◌≡◌, refl, sym, ap, subst, ◌∙◌, ◌≢◌, inl, inr, Bool, true, Option, none, some, List, [], ◌∷◌,
  ◌++◌, append_assoc, arith, Option-cases, length, All,
}
use tfg_edhoc.Library.{Libedhoc}
use tfg_edhoc.Suites.Int.{ℤ}
use tfg_edhoc.Suites.{CipherSuite, CipherSuiteList, CipherSuiteDetails}
use tfg_edhoc.Suites.Parameters.{
  EdhocParameters, IsValid, entries, validate_parameters, IsValid-validate_parameters,
}
use tfg_edhoc.Suites.Setup.Arrays.{HasMetadata, HasFunctions, AgreesWith}
use tfg_edhoc.Suites.Setup.Laws.{Coherent, setup_context_no_fault}
use tfg_edhoc.Suites.Negotiate.{RenegotiationList}
use tfg_edhoc.Suites.Negotiate.Laws.{Selects}
use tfg_edhoc.Client.Renegotiate.{
  last_suite, reset_edhoc_context, new_parameters, initialize_edhoc_context_with_parameters,
  reset_edhoc_context_with_new_suites_data,
}
use tfg_edhoc.Common.Buffers.{ReadonlyBuffer, readonly_buffer_has_content}
use tfg_edhoc.Library.{ErrorCode, ErrorInfo}
use tfg_edhoc.Suites.Negotiate.{negotiate_suites, success, error_size}
use tfg_edhoc.Suites.Negotiate.Laws.{Reports, negotiate_suites-Outcome}
use tfg_edhoc.Client.Renegotiate.Prefix.{
  Consistent, negotiated_parameters, negotiated-IsValid, last_suite_lem, All-prefix, All-at,
}

-- What the client sets its new context up with.
record Renegotiated (original : EdhocParameters) (l : RenegotiationList) : Type 0 where
  parameters : EdhocParameters
  details : CipherSuiteDetails
  metadata : CipherSuite
  made : new_parameters original l ≡ some parameters
  coherent : Coherent parameters details metadata
  valid : validate_parameters parameters ≡ true
  last_selected : last_suite l ≡ some (some details)

has_details :
    (d : Option CipherSuiteDetails)
    → HasMetadata d
    → (e : CipherSuiteDetails) × (m : CipherSuite) × (d ≡ some e) × (e.metadata ≡ some m)
has_details none h = cc
has_details (some e) h = elim (Option-cases e.metadata) [
  | inl n ↦ absurd (ground arith)
  | inr (m, n) ↦ (e, m, refl, n)
]

module _ (original : EdhocParameters) (peer : List ℤ) (l : RenegotiationList) (v : IsValid original)
    (co : Consistent (entries original.supported_cipher_suites))
    (s : Selects peer (entries original.supported_cipher_suites) l) where
  All-prefix_of_own :
      (P : Option CipherSuiteDetails → Type 0)
      → All P (entries original.supported_cipher_suites)
      → All P (s.before ++ s.chosen ∷ [])
  All-prefix_of_own P h =
      All-prefix P (s.before ++ s.chosen ∷ []) s.after (rw append_assoc (subst (All P) s.splits h))

  chosen_all :
      (P : Option CipherSuiteDetails → Type 0)
      → All P (entries original.supported_cipher_suites)
      → P s.chosen
  chosen_all P h = All-at P s.before s.after s.chosen (subst (All P) s.splits h)

  renegotiated : Renegotiated original l
  unfolding new_parameters
  renegotiated =
      let (e, m, is, has) = has_details s.chosen (chosen_all HasMetadata co.0) in
      let last : last_suite l ≡ some s.chosen =
        last_suite_lem l s.before s.chosen s.counted s.listed in
      record {
        parameters = negotiated_parameters original s.before s.chosen;
        details = e;
        metadata = m;
        made = rw (last, s.listed);
        coherent = record {
          selected = is;
          metadata = has;
          has_functions = subst HasFunctions is (chosen_all HasFunctions co.2);
          all_have = All-prefix_of_own HasMetadata co.0;
          agree =
              subst (λ c. All (AgreesWith c) (s.before ++ s.chosen ∷ [])) is
                (All-prefix_of_own (AgreesWith s.chosen) (
                  chosen_all (λ d. All (AgreesWith d) (entries original.supported_cipher_suites))
                    co.1));
        };
        valid = IsValid-validate_parameters _ (
            negotiated-IsValid original s.before s.after s.chosen v (s.splits ∙ rw append_assoc)
              (rw is));
        last_selected = last ∙ ap some is;
      }

-- The new parameters exist, pass the validation, and select the suite at the end of the list.
abbrev pub Usable : RenegotiationList → Option EdhocParameters → Type 0
Usable l none = ⊥
Usable l (some p) = (validate_parameters p ≡ true) × (last_suite l ≡ some p.selected_cipher_suite)

module _ {C K : Type 0} (lib : Libedhoc C K) (original : EdhocParameters)
    (l : RenegotiationList) where
  Usable-Renegotiated : Renegotiated original l → Usable l (new_parameters original l)
  Usable-Renegotiated r = rw r.made (r.valid, r.last_selected ∙ ap some (sym r.coherent.selected))

  reset_of_Renegotiated :
      (psa : Bool) (c : C)
      → Renegotiated original l
      → reset_edhoc_context_with_new_suites_data lib psa (some c) original l ≢ none
  unfolding reset_edhoc_context_with_new_suites_data reset_edhoc_context
      initialize_edhoc_context_with_parameters
  reset_of_Renegotiated psa c r = ground (
    arith,
    r.made,
    setup_context_no_fault lib psa (lib.context_deinit c).1 r.parameters r.details r.metadata
        r.coherent,
  )

module _ {C K : Type 0} (lib : Libedhoc C K) where
  negotiated_needs :
      (own : CipherSuiteList) (encoded : ReadonlyBuffer) (l : RenegotiationList)
      → negotiate_suites lib own encoded ≡ some (success l)
      → (readonly_buffer_has_content encoded ≡ true) × (length (entries own) ≤ 10)
  unfolding negotiate_suites
  negotiated_needs own encoded l h = ground arith

  -- A list that the negotiation chose, with a decoded error that reports the peer's suites, which fit the
  -- array, and valid original parameters whose suites are one struct each with its metadata and
  -- functions, can be used: the new parameters pass the validation, their selected suite is the last of
  -- the list, and setting up the context again makes no memory fault, whatever libedhoc answers.
  pub renegotiation-Usable :
      (original : EdhocParameters) (encoded : ReadonlyBuffer) (code : ErrorCode) (info : ErrorInfo)
      (peer : List ℤ) (l : RenegotiationList) (psa : Bool) (c : C)
      → IsValid original
      → Consistent (entries original.supported_cipher_suites)
      → lib.message_error_process encoded error_size ≡ some (code, info)
      → Reports info peer
      → negotiate_suites lib original.supported_cipher_suites encoded ≡ some (success l)
      → Usable l (new_parameters original l)
        × (reset_edhoc_context_with_new_suites_data lib psa (some c) original l ≢ none)
  renegotiation-Usable original encoded code info peer l psa c valid co processed reports h =
      let own = original.supported_cipher_suites in
      let (content, few) = negotiated_needs own encoded l h in
      elim (negotiate_suites-Outcome lib own encoded code info peer content valid.details_valid few
        co.0 processed reports) [
          | inl (n, all) ↦ absurd (cc)
          | inr (l', e, s) ↦
              let same : l' ≡ l = cc in
              let r =
                renegotiated original peer l valid co (subst (Selects peer (entries own)) same s) in
              (Usable-Renegotiated lib original l r, reset_of_Renegotiated lib original l psa c r)
        ]

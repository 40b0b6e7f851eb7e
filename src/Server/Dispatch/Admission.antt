-- ===== src/Server/Dispatch/Admission.antt =====
-- What a Message 1 does to the dictionary: src/coap/server/internal/srv_dispatch_engine.c stores the new
-- context exactly if it answers 2.04.
use tfg_edhoc.Base.{
  ℕ, ◌+◌, ◌≡◌, refl, ap, subst, ◌≢◌, ◌⊎◌, inl, inr, true, false, Option, none, some, arith,
  if◌then◌else◌, Bool-cases, Option-cases,
}
use tfg_edhoc.Library.{Libedhoc, Libcoap, PduCode, bad_request, internal_error}
use tfg_edhoc.Common.Buffers.{ReadonlyBuffer}
use tfg_edhoc.Oscore.Sessions.{LibcoapOscore}
use tfg_edhoc.Suites.{CipherSuite, CipherSuiteDetails}
use tfg_edhoc.Suites.Parameters.{EdhocParameters}
use tfg_edhoc.Suites.Setup.{setup_context}
use tfg_edhoc.Suites.Setup.Laws.{Coherent}
use tfg_edhoc.Server.Session.{Dictionary, SetStatus, set_context_by_cid}
use tfg_edhoc.Server.Session.Laws.{EqualityLaws}
use tfg_edhoc.Server.Session.Laws.Map.{lookup, set_ok, get-set}
use tfg_edhoc.Server.Session.Refinement.{lookup_of_none}
use tfg_edhoc.Server.Extract.{extract_message_1, map_extract_message_1_to_pdu_code}
use tfg_edhoc.Server.Handshake.Responders.{
  respond_to_message_1, respond_to_message_1_context, process_message_1_result,
}
use tfg_edhoc.Server.Dispatch.{
  State, Answer, Environment, is_changed, cleanup_context, cleanup_and_return, response_buffer, put,
  add_payload_if_present, conclude_message_1, answer_message_1, route_message_1,
}
use tfg_edhoc.Server.Dispatch.Memory.{Inv}
use tfg_edhoc.Server.Dispatch.Safety.{Safe, route_message_1-Safe}

stored_or_not : (status : SetStatus) → (status ≡ SetStatus.ok) ⊎ (status ≢ SetStatus.ok)
stored_or_not SetStatus.ok = inl refl
stored_or_not SetStatus.err_full = inr (λ h. cc)
stored_or_not SetStatus.err_duplicate_cid = inr (λ h. cc)
stored_or_not SetStatus.err_null_context = inr (λ h. cc)
stored_or_not SetStatus.err_invalid_cid = inr (λ h. cc)

module _ {C K P O X F S : Type 0} (lib : Libedhoc C K) (coap : Libcoap P O)
    (oscore : LibcoapOscore X F S) where
  -- Refused, with the dictionary as it was; or the context at `a` stored under a new identifier.
  pub data Admission (d : Dictionary K) (a : ℕ) (r : Answer C K P X) : Type 0 where
    refused : is_changed r.code ≡ false → r.state.dictionary ≡ d → Admission d a r
    admitted :
        (k : K)
        → is_changed r.code ≡ true
        → lookup lib k d ≡ none
        → ((j : K)
            → lookup lib j r.state.dictionary
              ≡ (if lib.connection_id_equal k j then some a else lookup lib j d))
        → Admission d a r

  abbrev AdmissionIn : Dictionary K → ℕ → Option (Answer C K P X) → Type 0
  AdmissionIn d a none = Unit {0}
  AdmissionIn d a (some r) = Admission d a r

  cleanup_and_return-AdmissionIn :
      (a b : ℕ) (code : PduCode) (response : P) (s : State C K X)
      → is_changed code ≡ false
      → AdmissionIn s.dictionary b (cleanup_and_return lib coap oscore a code response s)
  unfolding cleanup_and_return cleanup_context
  cleanup_and_return-AdmissionIn a b code response s h = elim (Option-cases (s.heap a)) [
    | inl n ↦ rw n tt
    | inr (c, e) ↦ rw e (refused h refl)
  ]

  module _ (eq : EqualityLaws lib) where
    stored-Admission :
        (a : ℕ) (c : C) (code : PduCode) (response : P) (s : State C K X)
        → is_changed code ≡ true
        → (set_context_by_cid lib (some (lib.private_cid c)) (some a) s.dictionary).0 ≡ SetStatus.ok
        → Admission s.dictionary a (record {
          code = code;
          response = response;
          state = record s {
            dictionary =
                (set_context_by_cid lib (some (lib.private_cid c)) (some a) s.dictionary).1;
          };
        })
    stored-Admission a c code response s h done =
        let k = lib.private_cid c in
        let d' = (set_context_by_cid lib (some k) (some a) s.dictionary).1 in
        let stored : set_context_by_cid lib (some k) (some a) s.dictionary ≡ (SetStatus.ok, d') =
          ap (λ status. (status, d')) done in
        admitted k h (lookup_of_none lib s.dictionary k (set_ok lib s.dictionary d' k a stored).0)
          (λ j. get-set lib eq s.dictionary d' k j a stored)

    conclude_stored :
        (a : ℕ) (c : C) (code : PduCode) (payload : ReadonlyBuffer) (response : P) (s : State C K X)
        → (add_payload_if_present lib coap oscore response payload).0 ≡ true
        → is_changed code ≡ true
        → (set_context_by_cid lib (some (lib.private_cid c)) (some a) s.dictionary).0 ≡ SetStatus.ok
        → conclude_message_1 lib coap oscore a c code payload response s
          ≡ some (record {
            code = code;
            response = (add_payload_if_present lib coap oscore response payload).1;
            state = record s {
              dictionary =
                  (set_context_by_cid lib (some (lib.private_cid c)) (some a) s.dictionary).1;
            };
          })
    unfolding conclude_message_1
    conclude_stored a c code payload response s added y done = rw (added, y, done) refl

    conclude_message_1-AdmissionIn :
        (a : ℕ) (c : C) (code : PduCode) (payload : ReadonlyBuffer) (response : P) (s : State C K X)
        → AdmissionIn s.dictionary a
            (conclude_message_1 lib coap oscore a c code payload response s)
    unfolding conclude_message_1
    conclude_message_1-AdmissionIn a c code payload response s =
        let (added, response') = add_payload_if_present lib coap oscore response payload in
        let failed = cleanup_and_return-AdmissionIn a a internal_error response' s refl in
        let status = (set_context_by_cid lib (some (lib.private_cid c)) (some a) s.dictionary).0 in
        elim (Bool-cases (is_changed code)) [
          | inr other ↦
              ground
                (arith, other, failed, cleanup_and_return-AdmissionIn a a code response' s other)
          | inl y ↦ elim (stored_or_not status) [
            | inl done ↦ elim (Bool-cases added) [
              | inl z ↦
                  rw (conclude_stored a c code payload response s z y done)
                    (stored-Admission a c code response' s y done)
              | inr z ↦ ground (arith, z, failed)
            ]
            | inr full ↦ ground (arith, y, full, failed)
          ]
        ]

    answer_message_1-AdmissionIn :
        (a : ℕ) (c : C) (request : ReadonlyBuffer) (response : P) (s : State C K X)
        → AdmissionIn s.dictionary a (answer_message_1 lib coap oscore a c request response s)
    unfolding answer_message_1 map_extract_message_1_to_pdu_code
    answer_message_1-AdmissionIn a c request response s =
        let parsed = extract_message_1 lib request response_buffer in
        let r = respond_to_message_1 lib parsed.buffer (some c) response_buffer in
        let (c', e) = respond_to_message_1_context lib parsed.buffer c response_buffer in
        ground (
          arith,
          e,
          cleanup_and_return-AdmissionIn a a bad_request response s refl,
          cleanup_and_return-AdmissionIn a a internal_error response s refl,
          conclude_message_1-AdmissionIn a c' (process_message_1_result r.status) r.response
              response (put a c' s),
        )

    out_of_memory-Admission :
        (response : P) (s : State C K X)
        → Admission s.dictionary s.next
            (record { code = internal_error; response = response; state = s })
    out_of_memory-Admission response s = refused refl refl

    route_message_1-AdmissionIn :
        (env : Environment) (p : EdhocParameters) (request : ReadonlyBuffer) (response : P)
        (s : State C K X)
        → AdmissionIn s.dictionary s.next (route_message_1 lib coap oscore env p request response s)
    unfolding route_message_1
    route_message_1-AdmissionIn env p request response s =
        let prepared = setup_context lib env.psa_init_succeeds lib.zeroed_context p in
        elim (Option-cases prepared) [
          | inl n ↦ ground (arith, n, out_of_memory-Admission response s)
          | inr ((status, c), e) ↦
              let placed =
                put s.next c (put s.next lib.zeroed_context (record s { next = s.next + 1 })) in
              ground (
                arith,
                e,
                out_of_memory-Admission response s,
                answer_message_1-AdmissionIn s.next c request response placed,
                cleanup_and_return-AdmissionIn s.next s.next internal_error response placed refl,
              )
        ]

    -- Every Message 1 that arrives while the contexts are in order is answered. With another code than
    -- 2.04 the dictionary is as it was; with 2.04 the new context is stored under an identifier that
    -- was not in use, and look-ups under other identifiers are as before. The parameters are coherent and
    -- the equality of identifiers is an equivalence.
    pub route_message_1-Admission :
        (env : Environment) (p : EdhocParameters) (d : CipherSuiteDetails) (m : CipherSuite)
        (request : ReadonlyBuffer) (response : P) (s : State C K X)
        → Coherent p d m
        → Inv lib s
        → (r : Answer C K P X) × (route_message_1 lib coap oscore env p request response s ≡ some r)
          × Admission s.dictionary s.next r
    route_message_1-Admission env p d m request response s co v =
        let safe = route_message_1-Safe lib coap oscore eq env p d m request response s co v in
        elim (Option-cases (route_message_1 lib coap oscore env p request response s)) [
          | inl n ↦ absurd (subst (Safe lib coap oscore) n safe)
          | inr (r, e) ↦ (
            r,
            e,
            subst (AdmissionIn s.dictionary s.next) e
                (route_message_1-AdmissionIn env p request response s),
          )
        ]

-- ===== src/Server/Dispatch/Safety.antt =====
-- Every request to src/coap/server/internal/srv_dispatch_engine.c is answered without a memory fault,
-- and leaves every context in exactly one place.
use tfg_edhoc.Base.{
  ℕ, ◌≡◌, refl, ◌≢◌, ◌⊎◌, inl, inr, Option, none, some, arith, or_else, Option-cases,
}
use tfg_edhoc.Library.{Libedhoc, Libcoap, PduCode, bad_request, internal_error}
use tfg_edhoc.Common.Buffers.{ReadonlyBuffer}
use tfg_edhoc.Coap.{content_cid_edhoc, content_edhoc}
use tfg_edhoc.Coap.Request.{parse_edhoc_request}
use tfg_edhoc.Coap.Pdu.{add_edhoc_options_to_pdu}
use tfg_edhoc.Oscore.Sessions.{LibcoapOscore, bind_session}
use tfg_edhoc.Suites.{CipherSuite, CipherSuiteDetails}
use tfg_edhoc.Suites.Parameters.{EdhocParameters}
use tfg_edhoc.Suites.Setup.{setup_context}
use tfg_edhoc.Suites.Setup.Laws.{Coherent, setup_context_no_fault}
use tfg_edhoc.Server.Session.{GetStatus, set_context_by_cid, get_context_by_cid}
use tfg_edhoc.Server.Session.Laws.{EqualityLaws}
use tfg_edhoc.Server.Handshake.Responders.{
  respond_to_message_1, respond_to_message_1_context, respond_to_message_3,
  respond_to_message_3_context, process_message_1_result, process_message_3_result,
}
use tfg_edhoc.Server.Extract.{
  extract_message_1, extract_connection_id, map_extract_message_1_to_pdu_code,
}
use tfg_edhoc.Server.Dispatch.{
  State, Answer, Environment, put, response_buffer, cleanup_context, cleanup_and_return,
  add_payload_if_present, conclude_message_1, answer_message_1, route_message_1, remove,
  bind_and_return, answer_message_3, route_message_3, route_and_process_edhoc_message,
  dispatch_edhoc_post,
}
use tfg_edhoc.Server.Dispatch.Memory.{
  Inv, InFlight, Found, put-InFlight, free-Inv, alloc-InFlight, store-Inv, get-Found,
}

status_cases : (g : GetStatus) → (g ≡ GetStatus.ok) ⊎ (g ≢ GetStatus.ok)
status_cases GetStatus.ok = inl refl
status_cases GetStatus.err_not_found = inr (λ h. cc)
status_cases GetStatus.err_invalid_cid = inr (λ h. cc)

module _ {C K P O X F S : Type 0} (lib : Libedhoc C K) (coap : Libcoap P O)
    (oscore : LibcoapOscore X F S) where
  -- The request was answered, and the contexts are in order.
  abbrev pub Safe : Option (Answer C K P X) → Type 0
  Safe none = ⊥
  Safe (some r) = Inv lib r.state

  cleanup_and_return-Safe :
      (a : ℕ) (c : C) (code : PduCode) (response : P) (s : State C K X)
      → InFlight lib a c s
      → Safe (cleanup_and_return lib coap oscore a code response s)
  unfolding cleanup_and_return
  cleanup_and_return-Safe a c code response s f = rw f.holds (free-Inv lib a c s f)

  module _ (eq : EqualityLaws lib) where
    conclude_message_1-Safe :
        (a : ℕ) (c : C) (code : PduCode) (payload : ReadonlyBuffer) (response : P) (s : State C K X)
        → InFlight lib a c s
        → Safe (conclude_message_1 lib coap oscore a c code payload response s)
    unfolding conclude_message_1
    conclude_message_1-Safe a c code payload response s f =
        let response' = (add_payload_if_present lib coap oscore response payload).1 in
        ground (
          arith,
          cleanup_and_return-Safe a c internal_error response' s f,
          cleanup_and_return-Safe a c code response' s f,
          store-Inv lib eq a c s
              (set_context_by_cid lib (some (lib.private_cid c)) (some a) s.dictionary).1 f,
        )

    answer_message_1-Safe :
        (a : ℕ) (c : C) (request : ReadonlyBuffer) (response : P) (s : State C K X)
        → InFlight lib a c s
        → Safe (answer_message_1 lib coap oscore a c request response s)
    unfolding answer_message_1
    answer_message_1-Safe a c request response s f =
        let parsed = extract_message_1 lib request response_buffer in
        let r = respond_to_message_1 lib parsed.buffer (some c) response_buffer in
        let (c', e) = respond_to_message_1_context lib parsed.buffer c response_buffer in
        ground (
          arith,
          e,
          cleanup_and_return-Safe a c (map_extract_message_1_to_pdu_code parsed.status) response s
              f,
          conclude_message_1-Safe a c' (process_message_1_result r.status) r.response response
              (put a c' s) (put-InFlight lib a c s f c'),
        )

    pub route_message_1-Safe :
        (env : Environment) (p : EdhocParameters) (d : CipherSuiteDetails) (m : CipherSuite)
        (request : ReadonlyBuffer) (response : P) (s : State C K X)
        → Coherent p d m
        → Inv lib s
        → Safe (route_message_1 lib coap oscore env p request response s)
    unfolding route_message_1
    route_message_1-Safe env p d m request response s co v =
        elim (Option-cases (setup_context lib env.psa_init_succeeds lib.zeroed_context p)) [
          | inl n ↦
              absurd
                (setup_context_no_fault lib env.psa_init_succeeds lib.zeroed_context p d m co n)
          | inr ((status, c), e) ↦
              let f =
                put-InFlight lib s.next lib.zeroed_context _
                  (alloc-InFlight lib s lib.zeroed_context v) c in
              ground (
                arith,
                e,
                answer_message_1-Safe s.next c request response _ f,
                cleanup_and_return-Safe s.next c internal_error response _ f,
              )
        ]

  bind_and_return-Safe :
      (a : ℕ) (c : C) (code : PduCode) (response : P) (s : State C K X)
      → InFlight lib a c s
      → Safe (bind_and_return lib coap oscore a code response s)
  unfolding bind_and_return cleanup_context
  bind_and_return-Safe a c code response s f =
      let x' = (bind_session lib oscore (s.heap a) s.coap_context).1 in
      ground (arith, f.holds, free-Inv lib a c (record s { coap_context = x' }) (in_flight_any x'))
    where
      in_flight_any : (x : X) → InFlight lib a c (record s { coap_context = x })
      in_flight_any x = record {
        holds = f.holds;
        accounted = f.accounted;
        fresh = f.fresh;
        capacity = f.capacity;
        bound = f.bound;
        distinct = f.distinct;
      }

  answer_message_3-Safe :
      (cid : K) (a : ℕ) (c : C) (message_3 : ReadonlyBuffer) (response : P) (s : State C K X)
      → InFlight lib a c (remove lib coap oscore cid s)
      → Safe (answer_message_3 lib coap oscore cid a c message_3 response s)
  unfolding answer_message_3
  answer_message_3-Safe cid a c message_3 response s f =
      let r = respond_to_message_3 lib (some c) message_3 response_buffer in
      let (c', e) = respond_to_message_3_context lib c message_3 response_buffer in
      let response' = (add_payload_if_present lib coap oscore response r.response).1 in
      let removed = put a c' (remove lib coap oscore cid s) in
      let g = put-InFlight lib a c (remove lib coap oscore cid s) f c' in
      ground (
        arith,
        e,
        cleanup_and_return-Safe a c bad_request response (remove lib coap oscore cid s) f,
        cleanup_and_return-Safe a c' internal_error response' removed g,
        cleanup_and_return-Safe a c' (process_message_3_result r.status) response' removed g,
        bind_and_return-Safe a c' (process_message_3_result r.status) response' removed g,
      )

  -- With the context that the look-up found.
  message_3_of_Found-Safe :
      (request : ReadonlyBuffer) (response : P) (s : State C K X)
      → Inv lib s
      → Found lib (extract_connection_id lib request).cid s
      → (get_context_by_cid lib (some (extract_connection_id lib request).cid) s.dictionary).status
        ≡ GetStatus.ok
      → Safe (route_message_3 lib coap oscore request response s)
  unfolding route_message_3
  message_3_of_Found-Safe request response s v f h =
      let extracted = extract_connection_id lib request in
      ground (
        arith,
        v,
        h,
        f.points,
        f.holds,
        answer_message_3-Safe extracted.cid f.address f.context extracted.message_payload response s
            f.in_flight,
      )

  other_message_3-Safe :
      (request : ReadonlyBuffer) (response : P) (s : State C K X)
      → Inv lib s
      → (get_context_by_cid lib (some (extract_connection_id lib request).cid) s.dictionary).status
        ≢ GetStatus.ok
      → Safe (route_message_3 lib coap oscore request response s)
  unfolding route_message_3
  other_message_3-Safe request response s v h = ground arith

  route_message_3-Safe :
      (request : ReadonlyBuffer) (response : P) (s : State C K X)
      → Inv lib s
      → Safe (route_message_3 lib coap oscore request response s)
  route_message_3-Safe request response s v =
      let cid = (extract_connection_id lib request).cid in
      elim (status_cases (get_context_by_cid lib (some cid) s.dictionary).status) [
        | inl h ↦ message_3_of_Found-Safe request response s v (get-Found lib cid s v h) h
        | inr h ↦ other_message_3-Safe request response s v h
      ]

  module _ (eq : EqualityLaws lib) where
    route_and_process-Safe :
        (env : Environment) (p : EdhocParameters) (d : CipherSuiteDetails) (m : CipherSuite)
        (request : ReadonlyBuffer) (response : P) (s : State C K X)
        → Coherent p d m
        → Inv lib s
        → Safe (route_and_process_edhoc_message lib coap oscore env p request response s)
    unfolding route_and_process_edhoc_message
    route_and_process-Safe env p d m request response s co v = ground (
      arith,
      route_message_1-Safe eq env p d m request response s co v,
      route_message_3-Safe request response s v,
    )

    -- Every POST request that arrives while the contexts are in order is answered without a memory
    -- fault and leaves the contexts in order, for coherent parameters.
    pub dispatch_edhoc_post-Safe :
        (env : Environment) (p : EdhocParameters) (d : CipherSuiteDetails) (m : CipherSuite)
        (request response : P) (s : State C K X)
        → Coherent p d m
        → Inv lib s
        → Safe (dispatch_edhoc_post lib coap oscore env p request response s)
    unfolding dispatch_edhoc_post
    dispatch_edhoc_post-Safe env p d m request response s co v =
        let parsed = parse_edhoc_request coap (some request) content_cid_edhoc response_buffer in
        let with_options = (add_edhoc_options_to_pdu coap (some response) content_edhoc).1 in
        ground (
          arith,
          route_and_process-Safe env p d m parsed.parsed_request (or_else with_options response) s
              co v,
        )

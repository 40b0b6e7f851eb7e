-- ===== src/Server/Dispatch.antt =====
-- src/coap/server/srv_dispatch.c and src/coap/server/internal/srv_dispatch_engine.c, with
-- srv_edhoc_cleanup_context of src/edhoc/common/com_edhoc_manage_context.c. The engine's table of
-- functions, which may lack some, and its guards are in Dispatch/Guards; here the table is whole.
-- The context that the binding of the OSCORE session leaves is not kept: it is cleaned up next.
-- The contexts lie on a heap: an address below `next` has been handed out by `calloc`, and holds a
-- context until it is freed. A result `none` is a memory fault: the use of a context through NULL or
-- after it was freed, or a second `free`.
pub mod Memory
pub mod Admission
pub mod Safety
pub mod Guards
pub mod Replay
use tfg_edhoc.Base.{
  ℕ, zero, suc, ◌+◌, ◌-◌, ◌*◌, ◌/◌, ◌%◌, ◌≤◌, ◌<◌, ◌≡◌, refl, sym, ap, subst, ◌∙◌, ◌≢◌, ◌⊎◌, inl,
  inr, Bool, true, false, not, ◌&&◌, ◌||◌, Option, none, some, List, [], ◌∷◌, ◌++◌, map, append-nil,
  append_assoc, arith, ltb, leb, ◌==◌, if◌then◌else◌, is_some, or_else, same_address, ◌>>=◌,
  Bool-cases, Option-cases, same_address_eq, same_address_refl, length, get_elem?, write, replicate,
  take, last_or, length-append, length-replicate, length-map, write-append, All, write_next,
  take-append, All-append, drop,
}
use tfg_edhoc.Library.{
  Libedhoc, Libcoap, PduCode, changed, content, bad_request, internal_error, empty_code, other_code,
}
use tfg_edhoc.Common.Buffers.{ReadonlyBuffer, WritableBuffer}
use tfg_edhoc.Coap.{StatusCoap, max_pdu_size, content_cid_edhoc, content_edhoc, coap_ok}
use tfg_edhoc.Coap.Request.{ParseStatus, parse_edhoc_request, map_parse_result_to_pdu_code}
use tfg_edhoc.Coap.Pdu.{add_payload_to_pdu, add_edhoc_options_to_pdu}
use tfg_edhoc.Oscore.Sessions.{LibcoapOscore, bind_session}
use tfg_edhoc.Suites.Parameters.{EdhocParameters}
use tfg_edhoc.Suites.Setup.{SetupContextStatus, setup_context}
use tfg_edhoc.Server.Session.{
  Dictionary, SetStatus, GetStatus, set_context_by_cid, get_context_by_cid, remove_context_by_cid,
}
use tfg_edhoc.Server.Extract.{
  ExtractMessage1Status, ExtractCidStatus, extract_message_1, is_message_1, extract_connection_id,
  connection_id_is_expected, map_extract_message_1_to_pdu_code,
}
use tfg_edhoc.Server.Handshake.Responders.{
  respond_to_message_1, respond_to_message_3, process_message_1_result, process_message_3_result,
}

pub record State (C K X : Type 0) : Type 0 where
  pub dictionary : Dictionary K
  pub heap : ℕ → Option C
  pub next : ℕ
  pub coap_context : X

-- What the calls of other libraries answer while one request is served.
pub record Environment : Type 0 where
  pub calloc_succeeds : Bool
  pub psa_init_succeeds : Bool

pub record Answer (C K P X : Type 0) : Type 0 where
  pub code : PduCode
  pub response : P
  pub state : State C K X

pub data CleanupStatus : Type 0 where
  ok err_null_context err_deinit : CleanupStatus

abbrev pub update : {C : Type 0} → (ℕ → Option C) → ℕ → Option C → ℕ → Option C
update h a v b = if a == b then v else h b

abbrev pub put : {C K X : Type 0} → ℕ → C → State C K X → State C K X
put a c s = record s { heap = update s.heap a (some c) }

-- An array of zeros on the stack.
unfoldable pub response_buffer : WritableBuffer
response_buffer = record { bytes = some (replicate max_pdu_size 0); capacity = max_pdu_size }

abbrev pub is_changed : PduCode → Bool
is_changed changed = true
is_changed content = false
is_changed bad_request = false
is_changed internal_error = false
is_changed empty_code = false
is_changed (other_code n) = false

module _ {C K P O X F S : Type 0} (lib : Libedhoc C K) (coap : Libcoap P O)
    (oscore : LibcoapOscore X F S) where
  unfoldable pub cleanup_context : Option ℕ → State C K X → Option (CleanupStatus × State C K X)
  cleanup_context none s = some (err_null_context, s)
  cleanup_context (some a) s = s.heap a >>= λ c.
      let (deinitialised, c') = lib.context_deinit c in
      some (if deinitialised then ok else err_deinit, record s { heap = update s.heap a none })

  -- `srv_edhoc_cleanup_context(edhoc_context); return code;`
  unfoldable pub cleanup_and_return : ℕ → PduCode → P → State C K X → Option (Answer C K P X)
  unfolding cleanup_context
  cleanup_and_return a code response s = cleanup_context (some a) s >>= λ r.
      some (record { code = code; response = response; state = r.1 })

  unfoldable pub add_payload_if_present : P → ReadonlyBuffer → Bool × P
  add_payload_if_present response payload =
      if ltb 0 payload.length
      then (let (status, response') =
            add_payload_to_pdu coap (some response) payload.bytes payload.length in
          (coap_ok status, or_else response' response))
      else (true, response)

  -- From the answer to Message 1 on; `a` is the address of the new context, `c` what it holds.
  unfoldable pub conclude_message_1 :
      ℕ → C → PduCode → ReadonlyBuffer → P → State C K X → Option (Answer C K P X)
  unfolding cleanup_and_return add_payload_if_present
  conclude_message_1 a c code payload response s =
      let (added, response') = add_payload_if_present response payload in
      let (set_status, dictionary') =
        set_context_by_cid lib (some (lib.private_cid c)) (some a) s.dictionary in
      if not added
      then cleanup_and_return a internal_error response' s
      else if not (is_changed code)
      then cleanup_and_return a code response' s
      else elim set_status [
        | SetStatus.ok ↦ some (record {
          code = code;
          response = response';
          state = record s { dictionary = dictionary' };
        })
        | _ ↦ cleanup_and_return a internal_error response' s
      ]

  -- After the set-up of the new context.
  unfoldable pub answer_message_1 :
      ℕ → C → ReadonlyBuffer → P → State C K X → Option (Answer C K P X)
  unfolding conclude_message_1
  answer_message_1 a c request response s =
      let parsed = extract_message_1 lib request response_buffer in
      let r = respond_to_message_1 lib parsed.buffer (some c) response_buffer in
      elim parsed.status [
        | ExtractMessage1Status.ok ↦ r.context >>= λ c'.
            conclude_message_1 a c' (process_message_1_result r.status) r.response response
              (put a c' s)
        | _ ↦ cleanup_and_return a (map_extract_message_1_to_pdu_code parsed.status) response s
      ]

  unfoldable pub route_message_1 :
      Environment → EdhocParameters → ReadonlyBuffer → P → State C K X → Option (Answer C K P X)
  unfolding answer_message_1
  route_message_1 env parameters request response s =
      let a = s.next in
      let allocated = put a lib.zeroed_context (record s { next = a + 1 }) in
      if not env.calloc_succeeds
      then some (record { code = internal_error; response = response; state = s })
      else setup_context lib env.psa_init_succeeds lib.zeroed_context parameters >>= λ r. elim r.0 [
        | SetupContextStatus.ok ↦ answer_message_1 a r.1 request response (put a r.1 allocated)
        | _ ↦ cleanup_and_return a internal_error response (put a r.1 allocated)
      ]

  -- `remove_context_by_cid(&cid)`, whose result is not read.
  abbrev pub remove : K → State C K X → State C K X
  remove cid s = record s { dictionary = (remove_context_by_cid lib (some cid) s.dictionary).1 }

  -- After a Message 3 that was accepted; the context is cleaned up whatever the binding gave.
  unfoldable pub bind_and_return : ℕ → PduCode → P → State C K X → Option (Answer C K P X)
  unfolding cleanup_context
  bind_and_return a code response s =
      let (status, coap_context') = bind_session lib oscore (s.heap a) s.coap_context in
      cleanup_context (some a) (record s { coap_context = coap_context' }) >>= λ r. some (record {
        code = if coap_ok status then code else internal_error;
        response = response;
        state = r.1;
      })

  -- With the context at `a`, which holds `c`, found under the extracted identifier.
  unfoldable pub answer_message_3 :
      K → ℕ → C → ReadonlyBuffer → P → State C K X → Option (Answer C K P X)
  unfolding cleanup_and_return add_payload_if_present bind_and_return
  answer_message_3 cid a c message_3 response s =
      let r = respond_to_message_3 lib (some c) message_3 response_buffer in
      let (added, response') = add_payload_if_present response r.response in
      let code = process_message_3_result r.status in
      r.context >>= λ c'.
      let removed = remove cid (put a c' s) in
      if not (connection_id_is_expected lib cid (some c))
      then cleanup_and_return a bad_request response (remove cid s)
      else if not added
      then cleanup_and_return a internal_error response' removed
      else if not (is_changed code)
      then cleanup_and_return a code response' removed
      else bind_and_return a code response' removed

  unfoldable pub route_message_3 : ReadonlyBuffer → P → State C K X → Option (Answer C K P X)
  unfolding answer_message_3
  route_message_3 request response s =
      let extracted = extract_connection_id lib request in
      let found = get_context_by_cid lib (some extracted.cid) s.dictionary in
      elim extracted.status [
        | ExtractCidStatus.ok ↦ elim found.status [
          | GetStatus.ok ↦ found.context >>= λ a. s.heap a >>= λ c.
              answer_message_3 extracted.cid a c extracted.message_payload response s
          | _ ↦ some (record { code = bad_request; response = response; state = s })
        ]
        | _ ↦ some (record { code = internal_error; response = response; state = s })
      ]

  unfoldable pub route_and_process_edhoc_message :
      Environment → EdhocParameters → ReadonlyBuffer → P → State C K X → Option (Answer C K P X)
  unfolding route_message_1 route_message_3
  route_and_process_edhoc_message env parameters request response s =
      if is_message_1 lib request
      then route_message_1 env parameters request response s
      else route_message_3 request response s

  -- `coap_pdu_set_code(response, code)`
  abbrev pub set_response_code : Answer C K P X → Answer C K P X
  set_response_code r = record r { response = coap.set_code r.code r.response }

  -- `srv_coap_dispatch_edhoc_post` behind its guards.
  unfoldable pub dispatch_edhoc_post :
      Environment → EdhocParameters → P → P → State C K X → Option (Answer C K P X)
  unfolding route_and_process_edhoc_message
  dispatch_edhoc_post env parameters request response s =
      let parsed = parse_edhoc_request coap (some request) content_cid_edhoc response_buffer in
      let (options_status, with_options) =
        add_edhoc_options_to_pdu coap (some response) content_edhoc in
      elim parsed.status [
        | ParseStatus.ok ↦
            if not (coap_ok options_status)
            then some (
                set_response_code (record {
                  code = internal_error;
                  response = or_else with_options response;
                  state = s;
                }))
            else route_and_process_edhoc_message env parameters parsed.parsed_request
                (or_else with_options response) s
              >>= λ r. some (set_response_code r)
        | _ ↦ some (
            set_response_code (record {
              code = map_parse_result_to_pdu_code parsed.status;
              response = response;
              state = s;
            }))
      ]

-- ===== src/Server/Dispatch/Replay.antt =====
-- A Message 3 is processed at most once: src/coap/server/internal/srv_dispatch_engine.c removes the
-- context whatever the processing gave.
use tfg_edhoc.Base.{ℕ, ◌≡◌, subst, Option, none, some, arith, if◌then◌else◌}
use tfg_edhoc.Library.{Libedhoc, Libcoap, PduCode, bad_request, internal_error}
use tfg_edhoc.Common.Buffers.{ReadonlyBuffer}
use tfg_edhoc.Oscore.Sessions.{LibcoapOscore}
use tfg_edhoc.Server.Session.{
  Dictionary, GetStatus, RemoveStatus, get_context_by_cid, remove_context_by_cid,
}
use tfg_edhoc.Server.Session.Laws.{EqualityLaws}
use tfg_edhoc.Server.Session.Laws.Map.{lookup, get-remove}
use tfg_edhoc.Server.Extract.{ExtractCidStatus, extract_connection_id}
use tfg_edhoc.Server.Dispatch.{
  State, Answer, cleanup_context, cleanup_and_return, bind_and_return, answer_message_3,
  route_message_3, response_buffer, add_payload_if_present, put, remove,
}
use tfg_edhoc.Server.Handshake.Responders.{
  respond_to_message_3, respond_to_message_3_context, process_message_3_result,
}
use tfg_edhoc.Server.Dispatch.Memory.{Inv, get-Found}

module _ {C K P O X F S : Type 0} (lib : Libedhoc C K) (coap : Libcoap P O)
    (oscore : LibcoapOscore X F S) where
  -- The dictionary behind the answer, if there is one.
  abbrev Leaves : Dictionary K → Option (Answer C K P X) → Type 0
  Leaves d none = Unit {0}
  Leaves d (some r) = r.state.dictionary ≡ d

  cleanup_and_return-Leaves :
      (a : ℕ) (code : PduCode) (response : P) (s : State C K X)
      → Leaves s.dictionary (cleanup_and_return lib coap oscore a code response s)
  unfolding cleanup_and_return cleanup_context
  cleanup_and_return-Leaves a code response s = ground arith

  bind_and_return-Leaves :
      (a : ℕ) (code : PduCode) (response : P) (s : State C K X)
      → Leaves s.dictionary (bind_and_return lib coap oscore a code response s)
  unfolding bind_and_return cleanup_context
  bind_and_return-Leaves a code response s = ground arith

  answer_message_3-Leaves :
      (cid : K) (a : ℕ) (c : C) (message_3 : ReadonlyBuffer) (response : P) (s : State C K X)
      → Leaves
          (remove_context_by_cid lib (some cid) s.dictionary).1
          (answer_message_3 lib coap oscore cid a c message_3 response s)
  unfolding answer_message_3
  answer_message_3-Leaves cid a c message_3 response s =
      let r = respond_to_message_3 lib (some c) message_3 response_buffer in
      let (c', e) = respond_to_message_3_context lib c message_3 response_buffer in
      let response' = (add_payload_if_present lib coap oscore response r.response).1 in
      let removed = put a c' (remove lib coap oscore cid s) in
      let code = process_message_3_result r.status in
      ground (
        arith,
        e,
        cleanup_and_return-Leaves a bad_request response (remove lib coap oscore cid s),
        cleanup_and_return-Leaves a internal_error response' removed,
        cleanup_and_return-Leaves a code response' removed,
        bind_and_return-Leaves a code response' removed,
      )

  -- With the context that the look-up gave, and what is stored at its address.
  found-Leaves :
      (request : ReadonlyBuffer) (response : P) (s : State C K X) (a : ℕ) (c : C)
      → (extract_connection_id lib request).status ≡ ExtractCidStatus.ok
      → (get_context_by_cid lib (some (extract_connection_id lib request).cid) s.dictionary).status
        ≡ GetStatus.ok
      → (get_context_by_cid lib (some (extract_connection_id lib request).cid) s.dictionary).context
        ≡ some a
      → s.heap a ≡ some c
      → Leaves
          (remove_context_by_cid lib (some (extract_connection_id lib request).cid) s.dictionary).1
          (route_message_3 lib coap oscore request response s)
  unfolding route_message_3
  found-Leaves request response s a c extracted found points holds =
      let x = extract_connection_id lib request in
      ground (
        arith,
        extracted,
        found,
        points,
        holds,
        answer_message_3-Leaves x.cid a c x.message_payload response s,
      )

  remove_of_get :
      (d : Dictionary K) (k : K)
      → (get_context_by_cid lib (some k) d).status ≡ GetStatus.ok
      → remove_context_by_cid lib (some k) d
        ≡ (RemoveStatus.ok, (remove_context_by_cid lib (some k) d).1)
  unfolding get_context_by_cid remove_context_by_cid
  remove_of_get d k h = ground arith

  -- Once a Message 3 has found its context, while the contexts are in order, its identifier is
  -- unknown to the server, whether the message was accepted or refused: the same message sent again
  -- finds nothing. Look-ups under other identifiers give what they gave before. The equality of
  -- identifiers is an equivalence.
  pub route_message_3_once :
      (eq : EqualityLaws lib) (request : ReadonlyBuffer) (response : P) (s : State C K X)
      (r : Answer C K P X) (j : K)
      → Inv lib s
      → (extract_connection_id lib request).status ≡ ExtractCidStatus.ok
      → (get_context_by_cid lib (some (extract_connection_id lib request).cid) s.dictionary).status
        ≡ GetStatus.ok
      → route_message_3 lib coap oscore request response s ≡ some r
      → lookup lib j r.state.dictionary ≡ (
          if lib.connection_id_equal (extract_connection_id lib request).cid j
          then none
          else lookup lib j s.dictionary)
  route_message_3_once eq request response s r j v extracted found h =
      let cid = (extract_connection_id lib request).cid in
      let f = get-Found lib cid s v found in
      let removed : r.state.dictionary ≡ (remove_context_by_cid lib (some cid) s.dictionary).1 =
        subst (Leaves (remove_context_by_cid lib (some cid) s.dictionary).1) h
          (found-Leaves request response s f.address f.context extracted found f.points f.holds) in
      rw removed
        (get-remove lib eq s.dictionary _ cid j v.distinct (remove_of_get s.dictionary cid found))

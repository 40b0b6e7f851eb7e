-- ===== src/Client/Application/NoFault/Steps.antt =====
-- From the answer to Message 1 on, and where it resolves addresses, the client of src/core/app_client.c
-- makes no memory fault.
use tfg_edhoc.Base.{
  ℕ, ◌≤◌, ◌≡◌, refl, ◌≢◌, Bool, true, false, not, Option, none, some, List, [], ◌∷◌, arith,
  if◌then◌else◌, or_else, ◌>>=◌, length,
}
use tfg_edhoc.Common.Buffers.{ReadonlyBuffer, WritableBuffer}
use tfg_edhoc.Library.{Libedhoc, Libcoap}
use tfg_edhoc.Coap.{StatusCoap}
use tfg_edhoc.Oscore.Sessions.{LibcoapOscore}
use tfg_edhoc.Oscore.Sessions
use tfg_edhoc.Client.Exchange.{Exchange, WaitAndGetResult, exchange_wait_and_get}
use tfg_edhoc.Client.Handshake.{
  Message2InitiatorStatus, respond_to_message_2, process_message_2, compose_message_3,
}
use tfg_edhoc.Client.Send.{
  LibcoapClient, SendResult, initial_fields, create_request_pdu, send_message_3,
}
use tfg_edhoc.Client.Send.Laws.{Fits, InBounds, Sent, send_message-Sent}
use tfg_edhoc.Client.Negotiation.{AttemptResult, Attempt}
use tfg_edhoc.Client.Negotiation.Keeps.{Keeps}
use tfg_edhoc.Coap.Context.{create_context}
use tfg_edhoc.Client.Endpoint.{
  LibcoapEndpoint, ParseAndResolveStatus, prepare_get_request, create_session,
  parse_and_resolve_coap_uri,
}
use tfg_edhoc.Client.Resources.{acquired, oscore_session}
use tfg_edhoc.Client.Application.Run.{
  Environment, failure, Run, notes, with_exchange, with_edhoc, with_oscore, clean_up,
}
use tfg_edhoc.Client.Application.Confirm.{confirm_keys, open_oscore_session, activate_oscore}
use tfg_edhoc.Client.Application.Handshake.{
  judge_message_3_response, finish_handshake, answer_message_2,
}

-- What libedhoc and the peer keep to in the whole handshake.
pub record KeepsAll {C K : Type 0} (lib : Libedhoc C K) : Type 0 where
  pub keeps : Keeps lib
  pub composes_3 :
      (c : C) (bytes : List ℕ) (capacity : ℕ)
      → (lib.message_3_compose c bytes capacity).written
        ≤ length (lib.message_3_compose c bytes capacity).bytes
  pub cid_fits : (c : C) → Fits (lib.prepend_connection_id (lib.private_peer_cid c) initial_fields)

-- A result, and no fault.
abbrev pub Returns : {A : Type 0} → Option A → Type 0
Returns none = ⊥
Returns (some a) = Unit

pub Returns-bind :
    {A B : Type 0} (o : Option A) (f : A → Option B)
    → Returns o
    → ((a : A) → o ≡ some a → Returns (f a))
    → Returns (o >>= f)
Returns-bind none f r h = r
Returns-bind (some a) f r h = h a refl

pub Returns-of_no_fault : {A : Type 0} (o : Option A) → o ≢ none → Returns o
Returns-of_no_fault none h = h refl
Returns-of_no_fault (some a) h = tt

pub Returns-resolved :
    {T R : Type 0} (s : ParseAndResolveStatus) (t : Option T) (f : T → Option R) (y : R)
    → (s ≡ ParseAndResolveStatus.ok → Returns t)
    → ((x : T) → Returns (f x))
    → Returns (elim s [ ParseAndResolveStatus.ok ↦ t >>= f | _ ↦ some y ])
Returns-resolved ParseAndResolveStatus.ok t f y h g = Returns-bind t f (h refl) (λ x e. g x)
Returns-resolved ParseAndResolveStatus.err_invalid_uri t f y h g = tt
Returns-resolved ParseAndResolveStatus.err_address_resolution t f y h g = tt

pub Returns-option :
    {T R : Type 0} (o : Option T) (f : T → Option R) (y : R)
    → ((x : T) → Returns (f x))
    → Returns (elim o [ none ↦ some y | some x ↦ f x ])
Returns-option none f y g = tt
Returns-option (some x) f y g = g x

pub Returns-checked :
    {T R : Type 0} (is_ok : Bool) (o : Option T) (f : T → Option R) (y : R)
    → (is_ok ≡ true → Returns o)
    → ((x : T) → Returns (f x))
    → Returns (if not is_ok then some y else o >>= f)
Returns-checked false o f y h g = tt
Returns-checked true o f y h g = Returns-bind o f (h refl) (λ x e. g x)

module _ {P O U A X S : Type 0} (endpoint : LibcoapEndpoint P O U A X S) where
  pub resolved-Returns :
      (uri : List ℕ)
      → (parse_and_resolve_coap_uri endpoint uri).status ≡ ParseAndResolveStatus.ok
      → Returns (parse_and_resolve_coap_uri endpoint uri).target
  unfolding parse_and_resolve_coap_uri
  resolved-Returns uri h = ground (arith, h)

  pub created-Returns :
      (create_context endpoint.contexts).is_ok ≡ true
      → Returns (create_context endpoint.contexts).context
  unfolding create_context
  created-Returns h = ground (arith, h)

  pub opened-Returns :
      (context : X) (uri : U) (address : A)
      → (create_session endpoint context uri address).is_ok ≡ true
      → Returns (create_session endpoint context uri address).session
  unfolding create_session
  opened-Returns context uri address h = ground (arith, h)

module _ {P O C K U A X F S : Type 0} (coap : Libcoap P O) (endpoint : LibcoapEndpoint P O U A X S)
    (oscore : LibcoapOscore X F S) (lib : Libedhoc C K) (keeps : KeepsAll lib)
    (get_pdu : (s : S) (u : U) (a : A) → create_request_pdu coap (endpoint.get s u a) ≢ none) where
  confirm_keys-Returns :
      (attempt : Attempt P) (uri : U) (address : A) (session : S) (run : Run C X S)
      → Returns (confirm_keys coap endpoint oscore lib attempt uri address session run)
  unfolding confirm_keys prepare_get_request
  confirm_keys-Returns attempt uri address session run = ground (arith, get_pdu session uri address)

  open_oscore_session-Returns :
      (attempt : Attempt P) (context : X) (uri : U) (address : A) (run : Run C X S)
      → Returns (open_oscore_session coap endpoint oscore lib attempt context uri address run)
  unfolding open_oscore_session
  open_oscore_session-Returns attempt context uri address run =
      opened (Sessions.create_session lib oscore (some run.resources.edhoc_context) context)
    where
      opened :
          (made : Option S × X)
          → Returns (elim made.0 [
            | none ↦ some (clean_up lib failure (with_oscore none made.1 run))
            | some s ↦
                confirm_keys coap endpoint oscore lib attempt uri address s
                  (notes (acquired oscore_session ∷ []) (with_oscore (some s) made.1 run))
          ])
      opened (none, x) = tt
      opened (some s, x) =
          confirm_keys-Returns attempt uri address s
            (notes (acquired oscore_session ∷ []) (with_oscore (some s) x run))

  activate_oscore-Returns :
      (attempt : Attempt P) (resource_uri : List ℕ) (context : X) (run : Run C X S)
      → Returns (activate_oscore coap endpoint oscore lib attempt resource_uri context run)
  unfolding activate_oscore
  activate_oscore-Returns attempt resource_uri context run =
      Returns-resolved (parse_and_resolve_coap_uri endpoint resource_uri).status
        (parse_and_resolve_coap_uri endpoint resource_uri).target _ _
        (resolved-Returns endpoint resource_uri)
        (λ (uri, address). open_oscore_session-Returns attempt context uri address run)

  judge_message_3_response-Returns :
      (attempt : Attempt P) (resource_uri : List ℕ) (context : X) (answer : Option WaitAndGetResult)
      (run : Run C X S)
      → Returns (
          judge_message_3_response coap endpoint oscore lib attempt resource_uri context answer run)
  unfolding judge_message_3_response
  judge_message_3_response-Returns attempt resource_uri context answer run =
      ground (arith, activate_oscore-Returns attempt resource_uri context run)

  finish_handshake-Returns :
      (env : Environment P) (client : LibcoapClient P O) (resource_uri : List ℕ) (context : X)
      (message_3 : ReadonlyBuffer) (e : Exchange) (run : Run C X S)
      → InBounds message_3
      → Returns (
          finish_handshake coap endpoint oscore lib env client resource_uri context message_3 e run)
  unfolding finish_handshake
  finish_handshake-Returns env client resource_uri context message_3 e run inside =
      sent (send_message_3 coap client lib (some e) (some run.resources.edhoc_context) message_3)
        (send_message-Sent coap client lib e run.resources.edhoc_context message_3
          keeps.keeps.flow_fits (keeps.cid_fits run.resources.edhoc_context) inside).1
    where
      sent :
          (o : Option (StatusCoap × Option (SendResult P)))
          → Sent coap client lib true e o
          → Returns (
              o >>= λ (status, sent). sent >>= λ r. elim status [
                | StatusCoap.err ↦ some (clean_up lib failure (with_exchange r.exchange run))
                | StatusCoap.ok ↦
                    judge_message_3_response coap endpoint oscore lib env.confirmation resource_uri
                      context
                      (exchange_wait_and_get coap env.third.events env.third.leisure r.exchange).0
                      (with_exchange
                        (exchange_wait_and_get coap env.third.events env.third.leisure r.exchange).1
                        run)
              ])
      sent none h = h
      sent (some (status, none)) h = h
      sent (some (StatusCoap.err, some r)) h = tt
      sent (some (StatusCoap.ok, some r)) h =
          judge_message_3_response-Returns env.confirmation resource_uri context
            (exchange_wait_and_get coap env.third.events env.third.leisure r.exchange).0
            (with_exchange
              (exchange_wait_and_get coap env.third.events env.third.leisure r.exchange).1 run)

  -- What the client hands out as Message 3 is in bounds.
  message_3-InBounds :
      (c : C) (message_2 : ReadonlyBuffer) (buffer : WritableBuffer)
      → (respond_to_message_2 lib (some c) message_2 buffer).status ≡ Message2InitiatorStatus.ok
      → InBounds (respond_to_message_2 lib (some c) message_2 buffer).buffer
  unfolding respond_to_message_2 compose_message_3 process_message_2
  message_3-InBounds c message_2 buffer h =
      let c1 = (lib.message_2_process c message_2).1 in
      ground (arith, h, keeps.composes_3 c1 (or_else buffer.bytes []) buffer.capacity)

  pub answer_message_2-Returns :
      (env : Environment P) (client : LibcoapClient P O) (resource_uri : List ℕ) (context : X)
      (attempt : AttemptResult C) (run : Run C X S)
      → Returns
          (answer_message_2 coap endpoint oscore lib env client resource_uri context attempt run)
  unfolding answer_message_2
  answer_message_2-Returns env client resource_uri context attempt before =
      let e = attempt.resources.exchange in
      let c = attempt.resources.edhoc_context in
      let run = with_exchange e (with_edhoc c before) in
      let responded =
        respond_to_message_2 lib (some c) attempt.response_payload env.payload_buffer in
      let after = with_edhoc (or_else responded.context c) run in
      ground (
        arith,
        message_3-InBounds c attempt.response_payload env.payload_buffer,
        finish_handshake-Returns env client resource_uri context responded.buffer e after,
      )

-- ===== src/Client/Send.antt =====
-- What the client sends: src/coap/client/cli_exchange.c, from `default_send` to
-- `cli_exchange_send_message_3`, and the preparation of a POST request of src/coap/client/cli_utils.c.
-- The session and the destination are fixed, so libcoap's calls on them are fields of a record. A
-- request that is deleted before it is sent is no longer mentioned.
-- A result `none` is a memory fault: a copy outside the buffer.
pub mod Laws
use tfg_edhoc.Base.{
  ℕ, zero, suc, ◌+◌, ◌-◌, ◌*◌, ◌/◌, ◌%◌, ◌≤◌, ◌<◌, ◌≡◌, refl, sym, ap, subst, ◌∙◌, ◌≢◌, ◌⊎◌, inl,
  inr, Bool, true, false, not, ◌&&◌, ◌||◌, Option, none, some, List, [], ◌∷◌, ◌++◌, map, append-nil,
  append_assoc, arith, ltb, leb, ◌==◌, if◌then◌else◌, is_some, or_else, same_address, ◌>>=◌,
  Bool-cases, Option-cases, same_address_eq, same_address_refl, length, get_elem?, write, replicate,
  take, last_or, length-append, length-replicate, length-map, write-append, All, write_next,
  take-append, All-append, drop,
}
use tfg_edhoc.Common.Buffers.{ReadonlyBuffer, readonly_buffer_has_content}
use tfg_edhoc.Library.{Libedhoc, Libcoap, PrependedFields}
use tfg_edhoc.Coap.{StatusCoap, max_pdu_size, content_cid_edhoc}
use tfg_edhoc.Coap.Pdu.{create_coap_edhoc_optlist, add_payload_to_pdu}
use tfg_edhoc.Client.Exchange.{Exchange, reset}

-- libcoap's calls on the client's session, over PDUs `P` and option lists `O`.
pub record LibcoapClient (P O : Type 0) : Type 0 where
  -- A new confirmable request.
  pub pdu_init : Option P
  -- With a new token of the session.
  pub add_token : P → Bool × P
  pub uri_into_optlist : O → Option O
  pub send : P → Bool

pub data PreparePduStatus : Type 0 where
  ok err_create_pdu err_create_optlist err_add_uri_opts : PreparePduStatus

pub record PreparePduResult (P : Type 0) : Type 0 where
  pub status : PreparePduStatus
  pub pdu : Option P

pub record ExchangeRequest : Type 0 where
  pub buffer : ReadonlyBuffer
  pub content_format : ℕ

-- `sent` is the PDU that `coap_send` was given, if it was called.
pub record SendResult (P : Type 0) : Type 0 where
  pub status : StatusCoap
  pub exchange : Exchange
  pub sent : Option P

-- `memcpy` of `n` bytes to `offset`.
abbrev pub copy_at : ℕ → ℕ → List ℕ → List ℕ → Option (List ℕ)
copy_at offset n message buffer =
    if ltb (length buffer) (offset + n) || ltb (length message) n
    then none
    else some (take offset buffer ++ (take n message ++ drop (offset + n) buffer))

-- An array of zeros on the stack, no prefix yet.
unfoldable pub initial_fields : PrependedFields
initial_fields = record {
  buffer = replicate max_pdu_size 0;
  buffer_size = max_pdu_size;
  offset = 0;
  edhoc_message_size = max_pdu_size;
}

abbrev send_failure : {P : Type 0} → Exchange → SendResult P
send_failure e = record { status = StatusCoap.err; exchange = e; sent = none }

module _ {P O : Type 0} (coap : Libcoap P O) (client : LibcoapClient P O) where
  unfoldable pub create_request_pdu : Option P
  create_request_pdu = elim client.pdu_init [
    | none ↦ none
    | some pdu ↦ let (added, pdu') = client.add_token pdu in if added then some pdu' else none
  ]

  abbrev prepare_failure : PreparePduStatus → PreparePduResult P
  prepare_failure s = record { status = s; pdu = none }

  -- `result == 0` on either call.
  unfoldable pub add_uri_into_pdu : O → P → Option P
  add_uri_into_pdu optlist pdu = elim (client.uri_into_optlist optlist) [
    | none ↦ none
    | some options ↦
        let (added, pdu') = coap.add_optlist_pdu options pdu in if added then some pdu' else none
  ]

  unfoldable pub prepare_post_request : ℕ → PreparePduResult P
  unfolding create_request_pdu add_uri_into_pdu
  prepare_post_request content_format = elim create_request_pdu [
    | none ↦ prepare_failure err_create_pdu
    | some pdu ↦ elim (create_coap_edhoc_optlist coap content_format) [
      | none ↦ prepare_failure err_create_optlist
      | some optlist ↦ elim (add_uri_into_pdu optlist pdu) [
        | none ↦ prepare_failure err_add_uri_opts
        | some pdu' ↦ record { status = ok; pdu = some pdu' }
      ]
    ]
  ]

  unfoldable pub send_coap_request : P → StatusCoap
  send_coap_request pdu = if client.send pdu then StatusCoap.ok else StatusCoap.err

  unfoldable pub default_send : Exchange → ExchangeRequest → SendResult P
  unfolding prepare_post_request send_coap_request
  default_send before request =
      let e = reset before in
      let prepared = prepare_post_request request.content_format in
      let (added, pdu) =
        add_payload_to_pdu coap prepared.pdu request.buffer.bytes request.buffer.length in
      if not (readonly_buffer_has_content request.buffer)
      then send_failure e
      else elim prepared.status [
        | ok ↦ elim added [
          | StatusCoap.err ↦ send_failure e
          | StatusCoap.ok ↦ elim pdu [
            | none ↦ send_failure e
            | some p ↦ record { status = send_coap_request p; exchange = e; sent = some p }
          ]
        ]
        | _ ↦ send_failure e
      ]

  module _ {C K : Type 0} (lib : Libedhoc C K) where
    -- From a prefix on: copy the message behind it, and send both.
    unfoldable pub send_prepended :
        Option PrependedFields → ReadonlyBuffer → Exchange → Option (SendResult P)
    unfolding default_send
    send_prepended none message e = some (send_failure e)
    send_prepended (some fields) message e =
        if ltb fields.edhoc_message_size message.length
        then some (send_failure e)
        else copy_at fields.offset message.length (or_else message.bytes []) fields.buffer
          >>= λ copied.
              elim (lib.prepend_recalculate_size
                (record fields { buffer = copied; edhoc_message_size = message.length })) [
                  | none ↦ some (send_failure e)
                  | some whole ↦ some (
                      default_send e (record {
                        buffer = record { bytes = some whole.buffer; length = whole.buffer_size };
                        content_format = content_cid_edhoc;
                      }))
                ]

    unfoldable pub send_message_1 :
        Option Exchange → ReadonlyBuffer → Option (StatusCoap × Option (SendResult P))
    unfolding send_prepended
    send_message_1 none message_1 = some (StatusCoap.err, none)
    send_message_1 (some e) message_1 =
        if not (readonly_buffer_has_content message_1) || leb max_pdu_size message_1.length
        then some (StatusCoap.err, some (send_failure e))
        else send_prepended (lib.prepend_flow initial_fields) message_1 e >>= λ r.
            some (r.status, some r)

    abbrev pub complete_if_sent : SendResult P → SendResult P
    complete_if_sent r = elim r.status [
      | StatusCoap.ok ↦ record r {
        exchange = record (r.exchange) { edhoc_exchange_is_complete = true };
      }
      | StatusCoap.err ↦ r
    ]

    unfoldable pub send_message_3 :
        Option Exchange → Option C → ReadonlyBuffer → Option (StatusCoap × Option (SendResult P))
    unfolding send_prepended
    send_message_3 none context message_3 = some (StatusCoap.err, none)
    send_message_3 (some e) none message_3 = some (StatusCoap.err, some (send_failure e))
    send_message_3 (some e) (some context) message_3 =
        if not (readonly_buffer_has_content message_3) || leb max_pdu_size message_3.length
        then some (StatusCoap.err, some (send_failure e))
        else send_prepended
            (lib.prepend_connection_id (lib.private_peer_cid context) initial_fields) message_3 e
          >>= λ r. some (r.status, some (complete_if_sent r))

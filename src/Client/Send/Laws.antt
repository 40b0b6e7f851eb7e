-- ===== src/Client/Send/Laws.antt =====
-- What sending does to the exchange of src/coap/client/cli_exchange.c, and that its copies stay in
-- their buffer.
use tfg_edhoc.Base.{
  ℕ, ◌+◌, ◌≤◌, ◌≡◌, refl, ap, ◌⊎◌, inl, inr, Bool, true, false, not, ◌||◌, Option, none, some, List,
  [], ◌++◌, arith, ltb, leb, or_else, ◌>>=◌, Bool-cases, Option-cases, length, take, drop,
}
use tfg_edhoc.Common.Buffers.{ReadonlyBuffer, readonly_buffer_has_content, empty_buffer}
use tfg_edhoc.Library.{Libedhoc, Libcoap, PrependedFields}
use tfg_edhoc.Coap.{StatusCoap, content_cid_edhoc}
use tfg_edhoc.Client.Exchange.{Exchange, reset}
use tfg_edhoc.Client.Send.{
  LibcoapClient, ExchangeRequest, SendResult, complete_if_sent, copy_at, initial_fields,
  default_send, send_prepended, send_message_1, send_message_3,
}

-- libedhoc leaves behind its prefix as much room as it says.
abbrev pub Fits : Option PrependedFields → Type 0
Fits none = Unit {0}
Fits (some f) = f.offset + f.edhoc_message_size ≤ length f.buffer

-- A view shows bytes that are there.
abbrev pub InBounds : ReadonlyBuffer → Type 0
InBounds b = b.length ≤ length (or_else b.bytes [])

coap_cases : (s : StatusCoap) → (s ≡ StatusCoap.ok) ⊎ (s ≡ StatusCoap.err)
coap_cases StatusCoap.ok = inl refl
coap_cases StatusCoap.err = inr refl

-- A copy into the room that is left succeeds.
copy_at-Fits :
    (f : PrependedFields) (m : ReadonlyBuffer)
    → Fits (some f)
    → InBounds m
    → ltb f.edhoc_message_size m.length ≡ false
    → (copied : List ℕ) × (copy_at f.offset m.length (or_else m.bytes []) f.buffer ≡ some copied)
copy_at-Fits f m fits inside room =
    let inside_buffer : ltb (length f.buffer) (f.offset + m.length) ≡ false = ground arith in
    let inside_message : ltb (length (or_else m.bytes [])) m.length ≡ false = ground arith in
    (
      take f.offset f.buffer
          ++ (take m.length (or_else m.bytes []) ++ drop (f.offset + m.length) f.buffer),
      rw (inside_buffer, inside_message) refl,
    )

module _ {P O : Type 0} (coap : Libcoap P O) (client : LibcoapClient P O) where
  -- Every attempt to send leaves the exchange reset.
  default_send_exchange :
      (e : Exchange) (request : ExchangeRequest)
      → (default_send coap client e request).exchange ≡ reset e
  unfolding default_send
  default_send_exchange e request = ground arith

  module _ {C K : Type 0} (lib : Libedhoc C K) where
    -- What was sent went out of a reset exchange, and the handshake is not complete by it.
    abbrev SentFrom : Exchange → Option (SendResult P) → Type 0
    SentFrom e none = ⊥
    SentFrom e (some r) =
        (r.status ≡ StatusCoap.ok → r.exchange ≡ reset e)
        × (r.exchange.edhoc_exchange_is_complete ≡ e.edhoc_exchange_is_complete)

    default_send-SentFrom :
        (e : Exchange) (request : ExchangeRequest)
        → SentFrom e (some (default_send coap client e request))
    unfolding reset
    default_send-SentFrom e request = (
      λ h. default_send_exchange e request,
      ap (λ x. x.edhoc_exchange_is_complete) (default_send_exchange e request),
    )

    send_prepended-SentFrom :
        (fields : Option PrependedFields) (message : ReadonlyBuffer) (e : Exchange)
        → Fits fields
        → InBounds message
        → SentFrom e (send_prepended coap client lib fields message e)
    unfolding send_prepended
    send_prepended-SentFrom none message e fits inside = (λ h. cc, refl)
    send_prepended-SentFrom (some f) message e fits inside =
        elim (Bool-cases (ltb f.edhoc_message_size message.length)) [
          | inl small ↦ rw small (λ h. cc, refl)
          | inr room ↦
              let (copied, c) = copy_at-Fits f message fits inside room in
              elim (Option-cases (
                lib.prepend_recalculate_size
                  (record f { buffer = copied; edhoc_message_size = message.length }))) [
                    | inl n ↦ rw (room, c, n) (λ h. cc, refl)
                    | inr (whole, n) ↦
                        rw (room, c, n)
                          (default_send-SentFrom e (record {
                            buffer = record {
                              bytes = some whole.buffer;
                              length = whole.buffer_size;
                            };
                            content_format = content_cid_edhoc;
                          }))
                  ]
        ]

    -- What an attempt to send leaves: on success an exchange that waits for an answer and holds none,
    -- complete if the message completes the handshake; on failure the completion as it was.
    abbrev pub Sent : Bool → Exchange → Option (StatusCoap × Option (SendResult P)) → Type 0
    Sent completes e none = ⊥
    Sent completes e (some (status, none)) = ⊥
    Sent completes e (some (status, some r)) =
        (r.status ≡ status)
        × (((status ≡ StatusCoap.ok)
              × (r.exchange.have_response ≡ false)
              × (r.exchange.internal_parsed_response ≡ empty_buffer)
              × (r.exchange.edhoc_exchange_is_complete
                  ≡ (completes || e.edhoc_exchange_is_complete)))
            ⊎ ((status ≡ StatusCoap.err)
                × (r.exchange.edhoc_exchange_is_complete ≡ e.edhoc_exchange_is_complete)))

    blank_of_reset :
        (e x : Exchange)
        → x ≡ reset e
        → (x.have_response ≡ false) × (x.internal_parsed_response ≡ empty_buffer)
    unfolding reset
    blank_of_reset e x q = (ap (λ y. y.have_response) q, ap (λ y. y.internal_parsed_response) q)

    Sent-message_1 :
        (o : Option (SendResult P)) (e : Exchange)
        → SentFrom e o
        → Sent false e (o >>= λ r. some (r.status, some r))
    Sent-message_1 none e s = s
    Sent-message_1 (some r) e s =
        let blank = blank_of_reset e r.exchange in
        (
          refl,
          elim (coap_cases r.status) [
            | inl ok ↦ inl (ok, (blank (s.0 ok)).0, (blank (s.0 ok)).1, s.1)
            | inr failed ↦ inr (failed, s.1)
          ],
        )

    Sent-message_3 :
        (o : Option (SendResult P)) (e : Exchange)
        → SentFrom e o
        → Sent true e (o >>= λ r. some (r.status, some (complete_if_sent coap client lib r)))
    Sent-message_3 none e s = s
    Sent-message_3 (some r) e s =
        let blank = blank_of_reset e r.exchange in
        (
          ground arith,
          elim (coap_cases r.status) [
            | inl ok ↦
                let (waits, empty) = blank (s.0 ok) in
                inl (ok, ground (arith, waits), ground (arith, empty), ground arith)
            | inr failed ↦ inr (failed, ground (arith, failed, s.1))
          ],
        )

    pub send_message_1-Sent :
        (e : Exchange) (message : ReadonlyBuffer)
        → Fits (lib.prepend_flow initial_fields)
        → InBounds message
        → Sent false e (send_message_1 coap client lib (some e) message)
    unfolding send_message_1
    send_message_1-Sent e message flow inside =
        elim (Bool-cases (not (readonly_buffer_has_content message) || leb 1024 message.length)) [
          | inl refused ↦ rw refused (refl, inr (refl, refl))
          | inr on ↦ rw on (
              Sent-message_1 _ e
                (send_prepended-SentFrom (lib.prepend_flow initial_fields) message e flow inside))
        ]

    -- Sending Message 1 or Message 3, where the message is in bounds and libedhoc leaves behind its
    -- prefix the room that it says, makes no memory fault. The exchange is complete exactly if it was
    -- or Message 3 was sent, and a sent message leaves no earlier answer behind.
    pub send_message-Sent :
        (e : Exchange) (context : C) (message : ReadonlyBuffer)
        → Fits (lib.prepend_flow initial_fields)
        → Fits (lib.prepend_connection_id (lib.private_peer_cid context) initial_fields)
        → InBounds message
        → Sent false e (send_message_1 coap client lib (some e) message)
          × Sent true e (send_message_3 coap client lib (some e) (some context) message)
    unfolding send_message_3
    send_message-Sent e context message flow cid inside = (
      send_message_1-Sent e message flow inside,
      elim (Bool-cases (not (readonly_buffer_has_content message) || leb 1024 message.length)) [
        | inl refused ↦ rw refused (refl, inr (refl, refl))
        | inr on ↦ rw on (
            Sent-message_3 _ e (
              send_prepended-SentFrom
                (lib.prepend_connection_id (lib.private_peer_cid context) initial_fields) message e
                cid inside))
      ],
    )

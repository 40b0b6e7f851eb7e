-- ===== src/Client/Exchange.antt =====
-- src/coap/client/cli_exchange.c, what is received, with internal/cli_exchange_internal.h and the
-- waiting loop of src/coap/client/cli_utils.c. The exchange's session data never changes after
-- the creation, which is in Client/Resources, so it is no field here.
pub mod Ends
pub mod Laws
use tfg_edhoc.Base.{
  ℕ, zero, suc, ◌+◌, ◌-◌, ◌*◌, ◌/◌, ◌%◌, ◌≤◌, ◌<◌, ◌≡◌, refl, sym, ap, subst, ◌∙◌, ◌≢◌, ◌⊎◌, inl,
  inr, Bool, true, false, not, ◌&&◌, ◌||◌, Option, none, some, List, [], ◌∷◌, ◌++◌, map, append-nil,
  append_assoc, arith, ltb, leb, ◌==◌, if◌then◌else◌, is_some, or_else, same_address, ◌>>=◌,
  Bool-cases, Option-cases, same_address_eq, same_address_refl, length, get_elem?, write, replicate,
  take, last_or, length-append, length-replicate, length-map, write-append, All, write_next,
  take-append, All-append, drop,
}
use tfg_edhoc.Common.Buffers.{
  ReadonlyBuffer, WritableBuffer, empty_buffer, readonly_buffer_has_content,
}
use tfg_edhoc.Library.{
  Libcoap, PduCode, changed, content, bad_request, internal_error, empty_code, other_code,
}
use tfg_edhoc.Suites.Int.{ℤ, pos, negsuc}
use tfg_edhoc.Coap.{StatusCoap, content_edhoc}
use tfg_edhoc.Coap.Data.{pdu_is_empty}
use tfg_edhoc.Coap.Request.{ParseStatus, parse_edhoc_request}
use tfg_edhoc.Coap.Pdu.{coap_response_indicates_success}

pub record Exchange : Type 0 where
  pub have_response : Bool
  pub response_is_error : Bool
  pub edhoc_exchange_is_complete : Bool
  pub incoming_response_buffer : WritableBuffer
  pub internal_parsed_response : ReadonlyBuffer

-- `calloc`, then the buffer; the session is known to be valid.
unfoldable pub init_exchange : WritableBuffer → Exchange
init_exchange response_buffer = record {
  have_response = false;
  response_is_error = false;
  edhoc_exchange_is_complete = false;
  incoming_response_buffer = response_buffer;
  internal_parsed_response = empty_buffer;
}

unfoldable pub reset : Exchange → Exchange
reset e = record e { have_response = false; internal_parsed_response = empty_buffer }

abbrev pub is_empty_code : PduCode → Bool
is_empty_code empty_code = true
is_empty_code changed = false
is_empty_code content = false
is_empty_code bad_request = false
is_empty_code internal_error = false
is_empty_code (other_code n) = false

-- One call of `coap_io_process`: what it returned, and the responses that it gave to the handler.
pub record IoEvent (P : Type 0) : Type 0 where
  pub elapsed_milliseconds : ℤ
  pub received : List P

pub data WaitStatus : Type 0 where
  ok timeout io_err : WaitStatus

-- `none` while the loop still runs.
pub record WaitResult : Type 0 where
  pub status : Option WaitStatus
  pub exchange : Exchange

pub record WaitAndGetResult : Type 0 where
  pub status : StatusCoap
  pub response : ReadonlyBuffer
  pub response_is_error : Bool

module _ {P O : Type 0} (coap : Libcoap P O) where
  abbrev note_code : P → Exchange → Exchange
  note_code pdu e = record e {
    response_is_error = not (coap_response_indicates_success (coap.get_code pdu));
  }

  -- `coap_client_coap_response_handler`
  unfoldable pub response_handler : P → Exchange → Exchange
  response_handler pdu before =
      let e = record before { have_response = true } in
      let parsed = parse_edhoc_request coap (some pdu) content_edhoc e.incoming_response_buffer in
      if is_empty_code (coap.get_code pdu)
      then e
      else if pdu_is_empty coap pdu && e.edhoc_exchange_is_complete
      then note_code pdu (record e { internal_parsed_response = empty_buffer })
      else elim parsed.status [
        | ParseStatus.ok ↦
            note_code pdu (record e { internal_parsed_response = parsed.parsed_request })
        | _ ↦ e
      ]

  unfoldable pub deliver : List P → Exchange → Exchange
  unfolding response_handler
  deliver [] e = e
  deliver (pdu ∷ pdus) e = deliver pdus (response_handler pdu e)

  -- The loop, with the milliseconds that remain; 0 is also any value below.
  unfoldable pub wait_loop : List (IoEvent P) → ℕ → Exchange → WaitResult
  unfolding deliver
  wait_loop [] remaining e = record {
    status = if e.have_response then some ok else none;
    exchange = e;
  }
  wait_loop (event ∷ events) remaining e =
      let e' = deliver event.received e in
      if e.have_response
      then record { status = some ok; exchange = e }
      else elim event.elapsed_milliseconds [
        | negsuc n ↦ record { status = some io_err; exchange = e' }
        | pos elapsed ↦ elim (ltb 0 remaining && leb remaining elapsed) [
          | true ↦ record { status = some timeout; exchange = e' }
          | false ↦ wait_loop events (remaining - elapsed) e'
        ]
      ]

  -- The leisure's integer part plus one, in a `u_int16_t`, in milliseconds.
  unfoldable pub wait_for_coap_response : List (IoEvent P) → ℕ → Exchange → WaitResult
  unfolding wait_loop
  wait_for_coap_response events leisure e = wait_loop events ((leisure + 1) % 65536 * 1000) e

  abbrev wait_and_get_failure : WaitAndGetResult
  wait_and_get_failure = record {
    status = StatusCoap.err;
    response = empty_buffer;
    response_is_error = false;
  }

  -- `none` while the loop still runs.
  unfoldable pub exchange_wait_and_get :
      List (IoEvent P) → ℕ → Exchange → Option WaitAndGetResult × Exchange
  unfolding wait_for_coap_response
  exchange_wait_and_get events leisure before =
      let waited = wait_for_coap_response events leisure before in
      let e = waited.exchange in
      let response = e.internal_parsed_response in
      (
        elim waited.status [
          | none ↦ none
          | some ok ↦ some (
              if not (readonly_buffer_has_content response) && not e.edhoc_exchange_is_complete
              then wait_and_get_failure
              else record {
                status = StatusCoap.ok;
                response = response;
                response_is_error = e.response_is_error;
              })
          | some timeout ↦ some wait_and_get_failure
          | some io_err ↦ some wait_and_get_failure
        ],
        e,
      )

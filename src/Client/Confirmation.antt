-- ===== src/Client/Confirmation.antt =====
-- The key confirmation of src/core/app_client.c: the handler of the answer to the encrypted GET
-- request, with its two static flags, and the waiting loop of src/coap/client/cli_utils.c on them.
pub mod Laws
use tfg_edhoc.Base.{
  ℕ, zero, suc, ◌+◌, ◌-◌, ◌*◌, ◌/◌, ◌%◌, ◌≤◌, ◌<◌, ◌≡◌, refl, sym, ap, subst, ◌∙◌, ◌≢◌, ◌⊎◌, inl,
  inr, Bool, true, false, not, ◌&&◌, ◌||◌, Option, none, some, List, [], ◌∷◌, ◌++◌, map, append-nil,
  append_assoc, arith, ltb, leb, ◌==◌, if◌then◌else◌, is_some, or_else, same_address, ◌>>=◌,
  Bool-cases, Option-cases, same_address_eq, same_address_refl, length, get_elem?, write, replicate,
  take, last_or, length-append, length-replicate, length-map, write-append, All, write_next,
  take-append, All-append, drop,
}
use tfg_edhoc.Library.{
  Libcoap, PduCode, changed, content, bad_request, internal_error, empty_code, other_code,
}
use tfg_edhoc.Suites.Int.{ℤ, pos, negsuc}
use tfg_edhoc.Client.Exchange.{IoEvent, WaitStatus}

-- The static variables of the file.
pub record Flags : Type 0 where
  pub response_received : Bool
  pub error_response : Bool

-- `none` while the loop still runs.
pub record WaitConfirmation : Type 0 where
  pub status : Option WaitStatus
  pub flags : Flags

abbrev pub is_content : PduCode → Bool
is_content content = true
is_content changed = false
is_content bad_request = false
is_content internal_error = false
is_content empty_code = false
is_content (other_code n) = false

module _ {P O : Type 0} (coap : Libcoap P O) where
  -- `client_temperature_handler`; behind the code it only logs.
  unfoldable pub temperature_handler : P → Flags → Flags
  temperature_handler pdu flags = record {
    response_received = true;
    error_response = if not (is_content (coap.get_code pdu)) then true else flags.error_response;
  }

  unfoldable pub deliver_confirmation : List P → Flags → Flags
  unfolding temperature_handler
  deliver_confirmation [] flags = flags
  deliver_confirmation (pdu ∷ pdus) flags =
      deliver_confirmation pdus (temperature_handler pdu flags)

  -- The loop, with the milliseconds that remain; 0 is also any value below.
  unfoldable pub confirmation_loop : List (IoEvent P) → ℕ → Flags → WaitConfirmation
  unfolding deliver_confirmation
  confirmation_loop [] remaining flags = record {
    status = if flags.response_received then some WaitStatus.ok else none;
    flags = flags;
  }
  confirmation_loop (event ∷ events) remaining flags =
      let flags' = deliver_confirmation event.received flags in
      if flags.response_received
      then record { status = some WaitStatus.ok; flags = flags }
      else elim event.elapsed_milliseconds [
        | negsuc n ↦ record { status = some WaitStatus.io_err; flags = flags' }
        | pos elapsed ↦ elim (ltb 0 remaining && leb remaining elapsed) [
          | true ↦ record { status = some WaitStatus.timeout; flags = flags' }
          | false ↦ confirmation_loop events (remaining - elapsed) flags'
        ]
      ]

  unfoldable pub wait_for_confirmation : List (IoEvent P) → ℕ → Flags → WaitConfirmation
  unfolding confirmation_loop
  wait_for_confirmation events leisure flags =
      confirmation_loop events ((leisure + 1) % 65536 * 1000) flags

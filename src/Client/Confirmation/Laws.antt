-- ===== src/Client/Confirmation/Laws.antt =====
-- What the flags of the key confirmation of src/core/app_client.c say of the responses that arrived.
use tfg_edhoc.Base.{
  ℕ, ◌+◌, ◌-◌, ◌*◌, ◌%◌, ◌≡◌, ◌⊎◌, inl, inr, true, false, List, [], ◌∷◌, arith, Bool-cases,
}
use tfg_edhoc.Library.{Libcoap, content}
use tfg_edhoc.Suites.Int.{ℤ, pos, negsuc}
use tfg_edhoc.Client.Exchange.{IoEvent}
use tfg_edhoc.Client.Confirmation.{
  Flags, temperature_handler, deliver_confirmation, confirmation_loop, wait_for_confirmation,
}

abbrev pub AnyOf : {A : Type 0} → (A → Type 0) → List A → Type 0
AnyOf Q [] = ⊥
AnyOf Q (x ∷ xs) = Q x ⊎ AnyOf Q xs

abbrev taken : ℤ → ℕ
taken (pos n) = n
taken (negsuc n) = 0

module _ {P O : Type 0} (coap : Libcoap P O) where
  -- A response with 2.05 is among those given to the handler.
  abbrev pub HasContent : List (IoEvent P) → Type 0
  HasContent events =
      AnyOf (λ event. AnyOf (λ pdu. coap.get_code pdu ≡ content) event.received) events

  deliver_confirmation_error :
      (pdus : List P) (f : Flags)
      → (deliver_confirmation coap pdus f).error_response ≡ false
      → f.error_response ≡ false
  unfolding deliver_confirmation temperature_handler
  deliver_confirmation_error [] f h = h
  deliver_confirmation_error (pdu ∷ pdus) f h =
      let before = deliver_confirmation_error pdus (temperature_handler coap pdu f) h in
      ground (arith, before)

  deliver_confirmation-HasContent :
      (pdus : List P) (f : Flags)
      → f.response_received ≡ false
      → (deliver_confirmation coap pdus f).response_received ≡ true
      → (deliver_confirmation coap pdus f).error_response ≡ false
      → AnyOf (λ pdu. coap.get_code pdu ≡ content) pdus
  unfolding deliver_confirmation temperature_handler
  deliver_confirmation-HasContent [] f new r e = cc
  deliver_confirmation-HasContent (pdu ∷ pdus) f new r e =
      let before = deliver_confirmation_error pdus (temperature_handler coap pdu f) e in
      inl (ground (arith, before))

  confirmation_loop_error :
      (events : List (IoEvent P)) (remaining : ℕ) (f : Flags)
      → (confirmation_loop coap events remaining f).flags.error_response ≡ false
      → f.error_response ≡ false
  unfolding confirmation_loop
  confirmation_loop_error [] remaining f h = h
  confirmation_loop_error (event ∷ events) remaining f h = ground (
    arith,
    h,
    deliver_confirmation_error event.received f,
    confirmation_loop_error events (remaining - taken event.elapsed_milliseconds)
        (deliver_confirmation coap event.received f),
  )

  confirmation_loop-HasContent :
      (events : List (IoEvent P)) (remaining : ℕ) (f : Flags)
      → f.response_received ≡ false
      → (confirmation_loop coap events remaining f).flags.response_received ≡ true
      → (confirmation_loop coap events remaining f).flags.error_response ≡ false
      → HasContent events
  unfolding confirmation_loop
  confirmation_loop-HasContent [] remaining f new r e = cc
  confirmation_loop-HasContent (event ∷ events) remaining f new r e =
      let f' = deliver_confirmation coap event.received f in
      elim (Bool-cases f'.response_received) [
        | inl now ↦ inl (
            deliver_confirmation-HasContent event.received f new now (
              ground (
                arith,
                new,
                e,
                confirmation_loop_error events (remaining - taken event.elapsed_milliseconds) f',
              )))
        | inr still ↦ inr (
            ground (
              arith,
              new,
              r,
              e,
              still,
              confirmation_loop-HasContent events (remaining - taken event.elapsed_milliseconds) f',
            ))
      ]

  pub wait_for_confirmation-HasContent :
      (events : List (IoEvent P)) (leisure : ℕ) (f : Flags)
      → f.response_received ≡ false
      → (wait_for_confirmation coap events leisure f).flags.response_received ≡ true
      → (wait_for_confirmation coap events leisure f).flags.error_response ≡ false
      → HasContent events
  unfolding wait_for_confirmation
  wait_for_confirmation-HasContent events leisure f =
      confirmation_loop-HasContent events ((leisure + 1) % 65536 * 1000) f

-- ===== src/Client/Exchange/Ends.antt =====
-- When the client of src/coap/client/cli_exchange.c stops waiting.
use tfg_edhoc.Base.{
  ℕ, ◌+◌, ◌-◌, ◌*◌, ◌%◌, ◌≤◌, ◌<◌, ◌≡◌, refl, ◌≢◌, ◌⊎◌, inl, inr, none, List, [], ◌∷◌, arith,
  length, All,
}
use tfg_edhoc.Library.{Libcoap}
use tfg_edhoc.Suites.Int.{ℤ, pos, negsuc}
use tfg_edhoc.Client.Exchange.{
  Exchange, IoEvent, deliver, wait_loop, wait_for_coap_response, exchange_wait_and_get,
}

-- A call that fails, or that takes a millisecond or more.
abbrev pub TakesTime : ℤ → Type 0
TakesTime (pos n) = 0 < n
TakesTime (negsuc n) = Unit {0}

abbrev pub Takes : {P : Type 0} → IoEvent P → Type 0
Takes event = TakesTime event.elapsed_milliseconds

pub elapsed_cases : (t : ℤ) → ((n : ℕ) × (t ≡ pos n)) ⊎ ((n : ℕ) × (t ≡ negsuc n))
elapsed_cases (pos n) = inl (n, refl)
elapsed_cases (negsuc n) = inr (n, refl)

module _ {P O : Type 0} (coap : Libcoap P O) where
  -- The loop ends once as many milliseconds have passed as remained at its start, in events that each
  -- take a millisecond or more.
  wait_loop_ends :
      (events : List (IoEvent P)) (remaining : ℕ) (e : Exchange)
      → All Takes events
      → 0 < remaining
      → remaining ≤ length events
      → (wait_loop coap events remaining e).status ≢ none
  unfolding wait_loop
  wait_loop_ends [] remaining e takes some_time h = absurd (omega arith)
  wait_loop_ends (event ∷ events) remaining e takes some_time h =
      elim (elapsed_cases event.elapsed_milliseconds) [
        | inl (n, q) ↦
            let some_ms : 0 < n = rw q at takes.0 in
            ground (
              arith,
              q,
              some_ms,
              wait_loop_ends events (remaining - n) (deliver coap event.received e) takes.1,
            )
        | inr (n, q) ↦ ground (arith, q)
      ]

  -- The client stops waiting: with a leisure below 65535 s, once as many calls of `coap_io_process`
  -- have returned as the rounded leisure has milliseconds, each having failed or taken a
  -- millisecond or more.
  pub wait_and_get_ends :
      (events : List (IoEvent P)) (leisure : ℕ) (e : Exchange)
      → leisure < 65535
      → All Takes events
      → (leisure + 1) * 1000 ≤ length events
      → (exchange_wait_and_get coap events leisure e).0 ≢ none
  unfolding exchange_wait_and_get wait_for_coap_response
  wait_and_get_ends events leisure e small takes enough = ground (
    arith,
    wait_loop_ends events ((leisure + 1) % 65536 * 1000) e takes (omega arith) (omega arith),
  )
